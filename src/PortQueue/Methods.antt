-- ===== src/PortQueue/Methods.antt =====
-- Every method keeps the invariant of a port queue.
use mergeshare.Prelude.{
  ℕ, ◌+◌, ◌%◌, ◌≤◌, ◌<◌, ◌≡◌, ◌⊎◌, inl, inr, true, false, not, ◌||◌, Option, none, some, arith,
  get_or, ap, set, length-set, leb, u64_mod, add64, add32, sub32, Bool-cases,
}
use native.Mathlib.Nat.{zero-add}
use mergeshare.Refs.{RefCounter}
use mergeshare.PortQueue.{
  Queue, consumer, max_consumers, invalid_consumer_id, register_consumer, is_full,
  invalid_buffer_id, all_passed, write_item, pop, close,
}
use mergeshare.PortQueue.Counted.{unregister_consumer}
use mergeshare.PortQueue.Valid.{
  IsValid, active_count-le, active_count-pos, first_idle_lem, rewrite-IsValid, not_full-near,
}

-- The queue that a `PortQueue` object is attached to, if any, is valid.
abbrev pub AllValid : Option Queue → Type 0
AllValid none = Unit {0}
AllValid (some q) = IsValid q

count-small : {q : Queue} → IsValid q → q.consumer_count ≤ max_consumers
count-small {q} v = omega (arith, v.counted, v.slots, active_count-le q.consumers)

-- The queue after `register_consumer` took slot `j`, and after `pop` read for consumer `i`.
abbrev pub joined : Queue → ℕ → Queue
joined q j = record q {
  consumers = set q.consumers j (record { head = q.tail; active = true });
  consumer_count = add32 q.consumer_count 1;
}

abbrev pub advanced : Queue → ℕ → Queue
advanced q i = record q {
  consumers = set q.consumers i (record (consumer q i) { head = add64 (consumer q i).head 1 });
}

-- The two outcomes of `register_consumer`.
pub register_consumer-cases :
    (q : Queue)
    → IsValid q
    → (register_consumer (some q) ≡ (some q, invalid_consumer_id))
      ⊎ ((j : ℕ) × (register_consumer (some q) ≡ (some (joined q j), j))
          × (j < max_consumers)
          × ((consumer q j).active ≡ false))
unfolding register_consumer
register_consumer-cases q v = elim (first_idle_lem 0 q.consumers) [
  | inl e ↦ inl (rw (e, register_consumer))
  | inr (j, e, lt, off) ↦
      inr (j, ground (arith, e, ap some (zero-add j)), omega (arith, v.slots), off)
]

-- Those of `pop`: nothing to read for that consumer, or its next item.
abbrev pub Readable : Queue → ℕ → Type 0
Readable q i = (i < max_consumers) × ((consumer q i).active ≡ true) × ((consumer q i).head < q.tail)

pub pop-cases :
    (q : Queue) (i : ℕ)
    → ((pop (some q) i ≡ (some q, none, false)) × ¬ Readable q i)
      ⊎ (Readable q i
          × (pop (some q) i ≡ (
            some (advanced q i),
            some (get_or q.items ((consumer q i).head % q.capacity) invalid_buffer_id),
            all_passed (consumer q i).head (advanced q i).consumers,
          )))
unfolding pop
pop-cases q i =
    elim (Bool-cases
      (leb max_consumers i || not (consumer q i).active || leb q.tail (consumer q i).head)) [
        | inl e ↦ inl (rw (e, pop), λ r. ground arith)
        | inr e ↦ inr (ground arith, rw (e, pop))
      ]

pub joined-IsValid :
    {q : Queue} (j : ℕ)
    → j < max_consumers
    → (consumer q j).active ≡ false
    → IsValid q
    → IsValid (joined q j)
joined-IsValid {q} j lt off v =
    rewrite-IsValid j (add32 q.consumer_count 1) (record { head = q.tail; active = true }) lt v
      (ground (arith, count-small v)) (λ on. omega arith) (λ on. omega (arith, v.room))

pub register_consumer-IsValid : {q : Queue} → IsValid q → AllValid (register_consumer (some q)).0
register_consumer-IsValid {q} v = elim (register_consumer-cases q v) [
  | inl e ↦ rw e v
  | inr (j, e, lt, off) ↦ rw e (joined-IsValid j lt off v)
]

pub advanced-IsValid :
    {q : Queue} (i : ℕ)
    → q.tail + q.capacity < u64_mod
    → Readable q i
    → IsValid q
    → IsValid (advanced q i)
advanced-IsValid {q} i small (lt, on, behind) v =
    rewrite-IsValid i q.consumer_count
      (record (consumer q i) { head = add64 (consumer q i).head 1 }) lt v (omega arith)
      (λ _. omega arith) (λ _. omega (arith, v.near i on))

pub pop-IsValid :
    {q : Queue} (i : ℕ) → q.tail + q.capacity < u64_mod → IsValid q → AllValid (pop (some q) i).0
pop-IsValid {q} i small v = elim (pop-cases q i) [
  | inl (e, _) ↦ rw e v
  | inr (r, e) ↦ rw e (advanced-IsValid i small r v)
]

-- The write of a push, on a valid queue that is not full and whose tail is below 2^64 less the
-- capacity, leaves the queue valid.
pub write_item-IsValid :
    {q : Queue} (id : ℕ)
    → q.tail + q.capacity < u64_mod
    → is_full q ≡ false
    → IsValid q
    → IsValid (write_item q id)
write_item-IsValid {q} id small space v = record {
  room = v.room;
  stored = omega (arith, v.stored, length-set q.items (q.tail % q.capacity) id);
  slots = v.slots;
  counted = v.counted;
  behind = λ i on. omega (arith, v.behind i on, v.room);
  near = λ i on. omega (arith, not_full-near i small v space on, v.room);
}

pub close-IsValid : {q : Queue} → IsValid q → AllValid (close (some q))
unfolding close
close-IsValid v = record {
  room = v.room;
  stored = v.stored;
  slots = v.slots;
  counted = v.counted;
  behind = v.behind;
  near = v.near;
}

module _ (r : RefCounter) where
  open r use {State}

  -- `unregister_consumer`, for any consumer id and any state of the allocator, keeps a valid queue
  -- valid, its count of consumers included.
  pub unregister_consumer-IsValid :
      {q : Queue} (a : Option State) (i : ℕ)
      → IsValid q
      → AllValid (unregister_consumer r (some q) a i).0
  unfolding unregister_consumer
  unregister_consumer-IsValid {q} a i v =
      elim (Bool-cases (leb max_consumers i || not (consumer q i).active)) [
        | inl e ↦ rw (e, unregister_consumer) v
        | inr e ↦
            rw (e, unregister_consumer)
              (rewrite-IsValid i (sub32 q.consumer_count 1)
                (record (consumer q i) { active = false }) (ground arith) v
                (ground (arith, count-small v, v.counted, active_count-pos q.consumers i))
                (λ off. cc) (λ off. cc))
      ]
