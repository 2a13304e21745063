-- ===== src/PortQueue/Promise.antt =====
-- Each method of port_queue.hpp against the FIFOs that the consumers see.
use mergeshare.Prelude.{
  ℕ, suc, ◌+◌, ◌%◌, ◌<◌, ◌≡◌, ◌⊎◌, inl, inr, refl, ap, ◌∙◌, true, false, List, [], ◌∷◌, Option,
  none, some, arith, get_or, get_or_above, ltb, u64_mod, add64, Bool-cases,
}
use mergeshare.PortQueue.{
  Consumer, idle, Queue, consumer, max_consumers, invalid_consumer_id, register_consumer, is_full,
  pop, all_passed,
}
use mergeshare.Window.{window}
use mergeshare.PortQueue.Valid.{IsValid, consumer-set, slowest-le, slowest-attained}
use mergeshare.PortQueue.Methods.{
  advanced, Readable, register_consumer-cases, pop-cases, advanced-IsValid,
}
use mergeshare.PortQueue.Broadcast.{unread, view_put, joined-unread, advanced-unread}

-- A reading of the specification: the oldest id of a FIFO that has one, and the FIFOs after it.
unfoldable pub view_pop : ℕ → (ℕ → Option (List ℕ)) → (ℕ → Option (List ℕ)) × Option ℕ
view_pop i v = elim (v i) [
  | none ↦ (v, none)
  | some ids ↦ elim ids [ [] ↦ (v, none) | id ∷ rest ↦ (view_put i (some rest) v, some id) ]
]

-- The FIFOs of the queue that a `PortQueue` object is attached to.
abbrev pub view : Option Queue → ℕ → Option (List ℕ)
view none i = none
view (some q) i = unread q i

pub active-in_range :
    {q : Queue} (i : ℕ) → IsValid q → (consumer q i).active ≡ true → i < max_consumers
active-in_range {q} i v on = elim (Bool-cases (ltb i max_consumers)) [
  | inl lt ↦ ground (arith, lt)
  | inr ge ↦
      absurd (ground (arith, on, get_or_above q.consumers i idle (ground (arith, ge, v.slots))))
]

nothing_unread :
    {q : Queue} (i : ℕ) → IsValid q → ¬ Readable q i → (unread q i ≡ none) ⊎ (unread q i ≡ some [])
nothing_unread {q} i v idle_or_read = elim (Bool-cases (consumer q i).active) [
  | inl on ↦ elim (Bool-cases (ltb (consumer q i).head q.tail)) [
    | inl lt ↦ absurd (idle_or_read (active-in_range i v on, on, ground (arith, lt)))
    | inr ge ↦ inr (
        rw on (
          ap some (
            ap (window 0 q.items q.capacity (consumer q i).head) {y = 0}
              (ground (arith, ge, v.behind i on)))))
  ]
  | inr off ↦ inl (rw off refl)
]

-- On a valid queue, `register_consumer` changes nothing and gives the invalid id, or gives a slot
-- that was idle, which then has an empty FIFO, while the others keep theirs.
pub register_consumer-view :
    (q : Queue)
    → IsValid q
    → (register_consumer (some q) ≡ (some q, invalid_consumer_id))
      ⊎ ((j : ℕ) × ((register_consumer (some q)).1 ≡ j)
          × (j < max_consumers)
          × (unread q j ≡ none)
          × (view (register_consumer (some q)).0 ≡ view_put j (some []) (unread q)))
register_consumer-view q v = elim (register_consumer-cases q v) [
  | inl e ↦ inl e
  | inr (j, e, lt, off) ↦
      inr (j, ap (λ p. p.1) e, lt, rw off refl, ap (λ p. view p.0) e ∙ joined-unread j lt v)
]

-- On a valid queue whose tail is below 2^64 less the capacity, `pop` for any consumer id gives the
-- oldest id of that consumer's FIFO and takes it off, leaving the FIFOs of the others; with no such
-- consumer, or nothing in its FIFO, it gives none and changes no FIFO.
pub pop-view :
    (q : Queue) (i : ℕ)
    → q.tail + q.capacity < u64_mod
    → IsValid q
    → (view (pop (some q) i).0, (pop (some q) i).1) ≡ view_pop i (unread q)
unfolding view_pop
pop-view q i small v = elim (pop-cases q i) [
  | inl (e, dry) ↦ elim (nothing_unread i v dry) [
    | inl f ↦ ap (λ p. (view p.0, p.1)) e ∙ rw (f, view_pop) refl
    | inr f ↦ ap (λ p. (view p.0, p.1)) e ∙ rw (f, view_pop) refl
  ]
  | inr (r, e) ↦
      let (before, after) = advanced-unread i small r v in
      ap (λ p. (view p.0, p.1)) e
      ∙ rw (before, view_pop)
          (ap (λ f. (f, some (get_or q.items ((consumer q i).head % q.capacity) 0))) after)
]

all_passed-intro :
    (h : ℕ) (cs : List Consumer)
    → ((i : ℕ) → (get_or cs i idle).active ≡ true → h < (get_or cs i idle).head)
    → all_passed h cs ≡ true
unfolding all_passed
all_passed-intro h [] past = refl
all_passed-intro h (c ∷ cs) past = ground (arith, past 0, all_passed-intro h cs (λ i. past (suc i)))

not_full-ahead :
    (q : Queue)
    → IsValid q
    → is_full q ≡ false
    → q.tail + q.capacity < u64_mod
    → (i : ℕ) → (consumer q i).active ≡ true
    → q.tail < (consumer q i).head + q.capacity
unfolding is_full
not_full-ahead q v space small i on =
    ground (arith, slowest-le q.consumers q.tail 0 i on, v.behind i on)

full-behind :
    (q : Queue)
    → IsValid q
    → is_full q ≡ true
    → q.tail + q.capacity < u64_mod
    → (i : ℕ) × ((consumer q i).active ≡ true) × ((consumer q i).head + q.capacity ≡ q.tail)
unfolding is_full
full-behind q v full small = elim (slowest-attained q.consumers q.tail 0) [
  | inl e ↦ absurd (ground (arith, v.room))
  | inr (i, on, e) ↦ (i, on, ground (arith, v.near i on, v.behind i on))
]

-- On a valid queue whose tail is below 2^64 less the capacity: a `pop` that takes a full queue to
-- one that is not full signals `not_full`.
pub pop-notifies :
    (q : Queue) (i : ℕ) {q' : Queue}
    → q.tail + q.capacity < u64_mod
    → IsValid q
    → (pop (some q) i).0 ≡ some q'
    → is_full q ≡ true
    → is_full q' ≡ false
    → (pop (some q) i).2 ≡ true
pop-notifies q i {q'} small v popped full space = elim (pop-cases q i) [
  | inl (e, dry) ↦
      let same : q ≡ q' = grind (arith, e, popped) in absurd (ground (arith, full, space, same))
  | inr (r, e) ↦
      let same : advanced q i ≡ q' = grind (arith, e, popped) in
      ap (λ p. p.2) e
      ∙ all_passed-intro (consumer q i).head (advanced q i).consumers
          (λ j on. passed r (rw same space) j on)
]
  where
    passed :
        Readable q i
        → is_full (advanced q i) ≡ false
        → (j : ℕ) → (consumer (advanced q i) j).active ≡ true
        → (consumer q i).head < (consumer (advanced q i) j).head
    passed r free j on =
        let v' = advanced-IsValid i small r v in
        let (k, k_on, at_tail) = full-behind q v full small in
        let ahead_k = not_full-ahead (advanced q i) v' free small k in
        let ahead_j = not_full-ahead (advanced q i) v' free small j on in
        ground (
          arith,
          r.0,
          at_tail,
          ahead_j,
          ahead_k,
          k_on,
          consumer-set i k (record (consumer q i) { head = add64 (consumer q i).head 1 }) r.0 v,
        )
