-- ===== src/RingQueue/Join.antt =====
-- Joining and leaving a ring queue (ring_queue.hpp).
use mergeshare.Prelude.{
  replicate, get_or, get_or-replicate, length-replicate, ℕ, ◌-◌, ◌<◌, ◌≡◌, ◌⊎◌, refl, ap, subst,
  ◌∙◌, fun_ext, Bool, true, false, List, [], none, some, arith, length, set, length-set, get_or-set,
  add32, inl, inr, if◌then◌else◌, ◌==◌, pos, minus_one,
}
use mergeshare.Window.{window}
use mergeshare.Pool.{index}
use mergeshare.Config.{QueueConfig}
use mergeshare.Control.{
  initialize_control, Slot, slot, blank_slot, Registry, max_consumers, register_from,
}
use mergeshare.Control
use mergeshare.Control.Slots.{register_from-cases}
use mergeshare.RingQueue.State.{Element, Ring, Client, registered, with_consumers}
use mergeshare.RingQueue.Open.{is_empty, create_ring, register_consumer, unregister_consumer}
use mergeshare.RingQueue.Valid.{IsRing}
use mergeshare.RingQueue.Broadcast.{unread_from, unread}
use mergeshare.RingQueue.Consume.{IsConsumer, view_put}

-- The outcomes of the registry's `register_consumer`.
register-cases :
    (r : Registry) (id : List ℕ) (start now : ℕ)
    → ((Control.register_consumer r id start now ≡ (r, minus_one))
        × ((i : ℕ) → i < length r.slots → (slot r i).active ≡ true))
      ⊎ ((i : ℕ) × (t : Slot) × (i < length r.slots)
          × ((slot r i).active ≡ false)
          × (Control.register_consumer r id start now
              ≡ (record { slots = set r.slots i t; active_count = add32 r.active_count 1 }, pos i))
          × (t.active ≡ true)
          × (t.read_offset ≡ start))
unfolding Control.register_consumer
register-cases r id start now = elim (register_from-cases 0 r.slots id start now) [
  | inl (e, busy) ↦ inl (ground (arith, e), busy)
  | inr (i, t, lt, off, e, up, at) ↦ inr (i, t, lt, off, ground (arith, e), up, at)
]

blank_active : (n i : ℕ) → (get_or (replicate n blank_slot) i blank_slot).active ≡ false
blank_active n i = rw (get_or-replicate n i blank_slot) refl

module _ {A : Type 0} where
  -- How a consumer joins at the write offset.
  pub record Joins (capacity : ℕ) (blank : Element A) (r : Ring A) (c' : Client) (r' : Ring A)
      : Type 0 where
    pub consumer : IsConsumer c' r'
    pub valid : IsRing capacity blank r'
    pub was_free : unread capacity blank r (index c'.consumer_slot_id) ≡ none
    pub fifo :
        unread capacity blank r'
        ≡ view_put (index c'.consumer_slot_id) (some []) (unread capacity blank r)

  -- The ring with slot `i` taken.
  abbrev joined : Ring A → ℕ → Slot → Ring A
  joined r i t = with_consumers r (record {
    slots = set r.control.consumers.slots i t;
    active_count = add32 r.control.consumers.active_count 1;
  })

  joined-slot :
      (capacity : ℕ) (blank : Element A) (r : Ring A) (i j : ℕ) (t : Slot)
      → i < length r.control.consumers.slots
      → slot (joined r i t).control.consumers j ≡ (if i == j then t else slot r.control.consumers j)
  joined-slot capacity blank r i j t lt =
      ground (arith, get_or-set r.control.consumers.slots i j t blank_slot)

  joined-IsRing :
      (capacity : ℕ) (blank : Element A) (r : Ring A) (i : ℕ) (t : Slot)
      → i < length r.control.consumers.slots
      → t.read_offset ≡ r.control.write_offset
      → IsRing capacity blank r
      → IsRing capacity blank (joined r i t)
  joined-IsRing capacity blank r i t lt at v = record {
    room = v.room;
    stored = v.stored;
    slots = length-set r.control.consumers.slots i t ∙ v.slots;
    behind = λ j on. ground (arith, joined-slot capacity blank r i j t lt, v.behind j);
    near = λ j on. ground (arith, joined-slot capacity blank r i j t lt, v.near j);
    finished =
        λ j n on from upto. ground (arith, joined-slot capacity blank r i j t lt, v.finished j n);
  }

  joined-unread :
      (capacity : ℕ) (blank : Element A) (r : Ring A) (i : ℕ) (t : Slot)
      → i < length r.control.consumers.slots
      → t.active ≡ true
      → t.read_offset ≡ r.control.write_offset
      → unread capacity blank (joined r i t) ≡ view_put i (some []) (unread capacity blank r)
  unfolding view_put
  joined-unread capacity blank r i t lt up at = fun_ext λ j.
      ground (
        arith,
        ap (unread_from capacity blank r) (joined-slot capacity blank r i j t lt),
        up,
        fresh,
      )
    where
      fresh :
          window blank r.elements capacity t.read_offset (r.control.write_offset - t.read_offset)
          ≡ []
      fresh = ap (window blank r.elements capacity t.read_offset) {y = 0} (omega (arith, at))

  -- The ring that a producer creates, with as many elements as its configuration says, above 0, is
  -- valid.
  pub create_ring-IsRing :
      (config : QueueConfig) (size_of now : ℕ) (memory : List (Element A)) (blank : Element A)
      → 0 < config.capacity
      → length memory ≡ config.capacity
      → IsRing config.capacity blank (create_ring config size_of now memory)
  unfolding create_ring initialize_control
  create_ring-IsRing config size_of now memory blank room sized = record {
    room = room;
    stored = sized;
    slots = length-replicate max_consumers blank_slot;
    behind = λ i on. absurd (ground (arith, blank_active max_consumers i, on));
    near = λ i on. absurd (ground (arith, blank_active max_consumers i, on));
    finished = λ i n on. absurd (ground (arith, blank_active max_consumers i, on));
  }

  -- The two ways in which the object's `register_consumer` ends.
  register_consumer-cases :
      (c : Client) (id thread_id : List ℕ) (from_beginning : Bool) (now : ℕ) (r : Ring A)
      → registered c ≡ false
      → let start = if from_beginning then 0 else r.control.write_offset in
        (((register_consumer c id thread_id from_beginning now r).1 ≡ false)
          × ((i : ℕ)
              → i < length r.control.consumers.slots
              → (slot r.control.consumers i).active ≡ true))
        ⊎ ((i : ℕ) × (t : Slot) × (i < length r.control.consumers.slots)
            × ((slot r.control.consumers i).active ≡ false)
            × (register_consumer c id thread_id from_beginning now r
                ≡ ((record c { consumer_slot_id = pos i; is_consumer = true }, joined r i t), true))
            × (t.active ≡ true)
            × (t.read_offset ≡ start))
  unfolding register_consumer unregister_consumer
  register_consumer-cases c id thread_id from_beginning now r out =
      elim (register-cases r.control.consumers (if is_empty id then thread_id else id)
        (if from_beginning then 0 else r.control.write_offset) now) [
          | inl (e, busy) ↦ inl (ground (arith, out, e), busy)
          | inr (i, t, lt, off, e, up, at) ↦ inr (i, t, lt, off, ground (arith, out, e), up, at)
        ]

  pub register_consumer-Joins :
      (c : Client) (id thread_id : List ℕ) (now : ℕ) (blank : Element A) (r : Ring A)
      → registered c ≡ false
      → IsRing c.config.capacity blank r
      → let ((c', r'), ok) = register_consumer c id thread_id false now r in
        ((ok ≡ false) × ((i : ℕ) → i < max_consumers → (slot r.control.consumers i).active ≡ true))
        ⊎ ((ok ≡ true) × Joins c.config.capacity blank r c' r')
  register_consumer-Joins c id thread_id now blank r out v =
      elim (register_consumer-cases c id thread_id false now r out) [
        | inl (e, busy) ↦ inl (e, λ i lt. busy i (omega (arith, lt, v.slots)))
        | inr (i, t, lt, off, e, up, at) ↦ rw e (
            inr (
              refl,
              record {
                consumer = (
                  refl,
                  ground (arith, joined-slot c.config.capacity blank r i i t lt, up),
                  omega (arith, lt, v.slots),
                );
                valid = joined-IsRing c.config.capacity blank r i t lt at v;
                was_free = ground (arith, off);
                fifo = joined-unread c.config.capacity blank r i t lt up at;
              },
            ))
      ]

  -- A consumer that is not registered, joining from the beginning after more than a queue's capacity
  -- was written: if `register_consumer` succeeds, the ring it leaves is not valid.
  pub register_consumer-from_beginning :
      (c : Client) (id thread_id : List ℕ) (now : ℕ) (blank : Element A) (r : Ring A)
      → registered c ≡ false
      → c.config.capacity < r.control.write_offset
      → (register_consumer c id thread_id true now r).1 ≡ true
      → ¬ IsRing c.config.capacity blank (register_consumer c id thread_id true now r).0.1
  register_consumer-from_beginning c id thread_id now blank r out wrapped ok v =
      elim (register_consumer-cases c id thread_id true now r out) [
        | inl (e, busy) ↦ absurd (ground (arith, e, ok))
        | inr (i, t, lt, off, e, up, at) ↦
            overrun i t lt up at (subst (λ p. IsRing c.config.capacity blank p.0.1) e v)
      ]
    where
      overrun :
          (i : ℕ) (t : Slot)
          → i < length r.control.consumers.slots
          → t.active ≡ true
          → t.read_offset ≡ 0
          → ¬ IsRing c.config.capacity blank (joined r i t)
      overrun i t lt up at w =
          ground (arith, joined-slot c.config.capacity blank r i i t lt, w.near i, up, at, wrapped)
