-- ===== src/RingQueue/Consume.antt =====
-- `try_pop` (ring_queue.hpp) against the FIFO of its consumer.
use mergeshare.Prelude.{
  ℕ, ◌+◌, ◌-◌, ◌%◌, ◌≤◌, ◌<◌, ◌≡◌, ◌⊎◌, refl, ap, ◌∙◌, fun_ext, true, List, [], ◌∷◌, Option, none,
  some, arith, leb, get_or, length-set, get_or-set, u64_mod, add64, Bool-cases, inl, inr,
  if◌then◌else◌, ◌==◌,
}
use mergeshare.Window.{window, window-cons}
use mergeshare.Pool.{index}
use mergeshare.Control.{slot, blank_slot, max_consumers, is_valid}
use mergeshare.RingQueue.State.{Element, Ring, Client, registered, own_slot}
use mergeshare.RingQueue.Pop.{read_element, advance, try_pop}
use mergeshare.RingQueue.Valid.{IsRing}
use mergeshare.RingQueue.Broadcast.{unread_from, unread}

module _ {A : Type 0} where
  unfoldable pub view_put :
      ℕ
      → Option (List (Element A))
      → (ℕ → Option (List (Element A)))
      → ℕ
      → Option (List (Element A))
  view_put j fifo v i = if j == i then fifo else v i

  -- What `try_pop` gives of an element: its data, and its timestamp if the queue has timestamps.
  abbrev pub read_out : Client → Element A → A × Option ℕ
  read_out c e = (e.payload, if c.config.has_timestamp then some e.header.timestamp else none)

  -- The object is registered, and its slot is active.
  abbrev pub IsConsumer : Client → Ring A → Type 0
  IsConsumer c r =
      (registered c ≡ true)
      × ((own_slot c r.control).active ≡ true)
      × (index c.consumer_slot_id < max_consumers)

  -- The ring after a read by the consumer.
  abbrev pub consumed : Client → ℕ → Ring A → Ring A
  consumed c now r = advance c (add64 (own_slot c r.control).read_offset 1) now (record r {
    control = record r.control {
      total_popped = add64 r.control.total_popped 1;
      last_read_time = now;
    };
  })

  -- A valid element before the write offset is read, whichever it is.
  pub try_pop-reads :
      (c : Client) (now : ℕ) (blank : Element A) (r : Ring A)
      → registered c ≡ true
      → (own_slot c r.control).read_offset < r.control.write_offset
      → let e = get_or r.elements ((own_slot c r.control).read_offset % c.config.capacity) blank in
        is_valid e.header ≡ true
        → try_pop c now blank r ≡ some (consumed c now r, some (read_out c e))
  unfolding try_pop read_element
  try_pop-reads c now blank r reg wet good = ground (arith, reg, wet, good)

  pub try_pop-cases :
      (c : Client) (now : ℕ) (blank : Element A) (r : Ring A)
      → IsConsumer c r
      → IsRing c.config.capacity blank r
      → let h = (own_slot c r.control).read_offset in
        ((r.control.write_offset ≤ h) × (try_pop c now blank r ≡ some (r, none)))
        ⊎ ((h < r.control.write_offset)
            × (try_pop c now blank r
                ≡ some (
                  consumed c now r,
                  some (read_out c (get_or r.elements (h % c.config.capacity) blank)),
                )))
  unfolding try_pop
  try_pop-cases c now blank r (reg, on, lt) v =
      elim (Bool-cases (leb r.control.write_offset (own_slot c r.control).read_offset)) [
        | inl dry ↦ inl (ground (arith, dry), ground (arith, reg, dry))
        | inr wet ↦
            let ahead : (own_slot c r.control).read_offset < r.control.write_offset =
              ground (arith, wet) in
            inr (
              ahead,
              try_pop-reads c now blank r reg ahead (
                  v.finished (index c.consumer_slot_id) (own_slot c r.control).read_offset on
                    (omega arith) ahead),
            )
      ]

  pub consumed-slot :
      (c : Client) (now i : ℕ) (blank : Element A) (r : Ring A)
      → IsConsumer c r
      → IsRing c.config.capacity blank r
      → slot (consumed c now r).control.consumers i ≡ (
          if index c.consumer_slot_id == i
          then record (own_slot c r.control) {
            read_offset = add64 (own_slot c r.control).read_offset 1;
            last_access_time = now;
          }
          else slot r.control.consumers i)
  unfolding advance
  consumed-slot c now i blank r (reg, on, lt) v = ground (
    arith,
    get_or-set r.control.consumers.slots (index c.consumer_slot_id) i
        (record (own_slot c r.control) {
          read_offset = add64 (own_slot c r.control).read_offset 1;
          last_access_time = now;
        })
        blank_slot,
    v.slots,
  )

  -- How the FIFOs and the ring change with one read.
  pub record Pops (c : Client) (blank : Element A) (r : Ring A)
      (result : Option (Ring A × Option (A × Option ℕ))) : Type 0 where
    pub after : Ring A
    pub item : Option (A × Option ℕ)
    pub returns : result ≡ some (after, item)
    pub valid : IsRing c.config.capacity blank after
    pub taken :
        ((unread c.config.capacity blank r (index c.consumer_slot_id) ≡ some [])
          × (item ≡ none)
          × (after ≡ r))
        ⊎ ((e : Element A) × (rest : List (Element A)) × (unread c.config.capacity blank r
                (index c.consumer_slot_id)
              ≡ some (e ∷ rest))
            × (item ≡ some (read_out c e))
            × (unread c.config.capacity blank after
                ≡ view_put
                    (index c.consumer_slot_id)
                    (some rest)
                    (unread c.config.capacity blank r)))

  pub consumed-IsRing :
      (c : Client) (now : ℕ) (blank : Element A) (r : Ring A)
      → IsConsumer c r
      → IsRing c.config.capacity blank r
      → (own_slot c r.control).read_offset < r.control.write_offset
      → r.control.write_offset + c.config.capacity < u64_mod
      → IsRing c.config.capacity blank (consumed c now r)
  unfolding advance
  consumed-IsRing c now blank r is_consumer v wet small = record {
    room = v.room;
    stored = v.stored;
    slots =
        length-set r.control.consumers.slots (index c.consumer_slot_id)
          (record (own_slot c r.control) {
            read_offset = add64 (own_slot c r.control).read_offset 1;
            last_access_time = now;
          })
        ∙ v.slots;
    behind = λ i on. ground (arith, consumed-slot c now i blank r is_consumer v, v.behind i);
    near = λ i on. ground (arith, consumed-slot c now i blank r is_consumer v, v.near i);
    finished = λ i n on from upto. ground (
      arith,
      consumed-slot c now i blank r is_consumer v,
      v.finished i n,
      is_consumer.1,
      v.finished (index c.consumer_slot_id) n,
    );
  }

  consumed-unread :
      (c : Client) (now : ℕ) (blank : Element A) (r : Ring A)
      → IsConsumer c r
      → IsRing c.config.capacity blank r
      → (own_slot c r.control).read_offset < r.control.write_offset
      → r.control.write_offset + c.config.capacity < u64_mod
      → let h = (own_slot c r.control).read_offset in
        unread c.config.capacity blank (consumed c now r)
        ≡ view_put
            (index c.consumer_slot_id)
            (some
              (window blank r.elements c.config.capacity (h + 1) (r.control.write_offset - h - 1)))
            (unread c.config.capacity blank r)
  unfolding view_put advance
  consumed-unread c now blank r is_consumer v wet small = fun_ext λ i. ground (
    arith,
    ap (unread_from c.config.capacity blank (consumed c now r))
        (consumed-slot c now i blank r is_consumer v),
    is_consumer.1,
    next,
    left,
  )
    where
      h : ℕ
      h = (own_slot c r.control).read_offset

      next : add64 h 1 ≡ h + 1
      next = omega arith

      left :
          window blank r.elements c.config.capacity (h + 1) (r.control.write_offset - (h + 1))
          ≡ window blank r.elements c.config.capacity (h + 1) (r.control.write_offset - h - 1)
      left = ap (window blank r.elements c.config.capacity (h + 1)) (omega arith)

  -- On a valid ring whose write offset is below 2^64 less the capacity, `try_pop` by a registered
  -- consumer never waits, keeps the ring valid, and gives the data and timestamp of the oldest
  -- element of its FIFO, which it takes off without touching another FIFO; with nothing in its FIFO
  -- it gives none and changes nothing.
  pub try_pop-Pops :
      (c : Client) (now : ℕ) (blank : Element A) (r : Ring A)
      → IsConsumer c r
      → IsRing c.config.capacity blank r
      → r.control.write_offset + c.config.capacity < u64_mod
      → Pops c blank r (try_pop c now blank r)
  try_pop-Pops c now blank r is_consumer v small =
      elim (try_pop-cases c now blank r is_consumer v) [
        | inl (dry, e) ↦ record {
          after = r;
          item = none;
          returns = e;
          valid = v;
          taken = inl (nothing dry, refl, refl);
        }
        | inr (wet, e) ↦ record {
          after = consumed c now r;
          item = some (read_out c (get_or r.elements (h % c.config.capacity) blank));
          returns = e;
          valid = consumed-IsRing c now blank r is_consumer v wet small;
          taken = inr (
            get_or r.elements (h % c.config.capacity) blank,
            window blank r.elements c.config.capacity (h + 1) (r.control.write_offset - h - 1),
            first wet,
            refl,
            consumed-unread c now blank r is_consumer v wet small,
          );
        }
      ]
    where
      h : ℕ
      h = (own_slot c r.control).read_offset

      seen :
          unread c.config.capacity blank r (index c.consumer_slot_id)
          ≡ some (window blank r.elements c.config.capacity h (r.control.write_offset - h))
      seen = ground (arith, is_consumer.1)

      nothing :
          r.control.write_offset ≤ h
          → unread c.config.capacity blank r (index c.consumer_slot_id) ≡ some []
      nothing dry =
          seen
          ∙ ap (λ n. some (window blank r.elements c.config.capacity h n)) {y = 0}
              (omega (arith, dry))

      first :
          h < r.control.write_offset
          → unread c.config.capacity blank r (index c.consumer_slot_id)
            ≡ some (
                get_or r.elements (h % c.config.capacity) blank
                ∷ window blank r.elements c.config.capacity
                    (h + 1)
                    (r.control.write_offset - h - 1))
      first wet =
          seen
          ∙ ap some (
              window-cons blank r.elements c.config.capacity h (r.control.write_offset - h)
                (omega (arith, wet)))
