-- ===== src/Control/Slots.antt =====
-- The consumer registry of metadata.hpp: the slowest offset, and what joining and leaving change.
use mergeshare.Prelude.{
  ℕ, zero, suc, ◌+◌, ◌≤◌, ◌<◌, ◌≡◌, ◌⊎◌, inl, inr, refl, ap, ◌∙◌, true, false, ◌&&◌, List, [], ◌∷◌,
  none, some, arith, length, get_or, set, ltb, ◌==◌, if◌then◌else◌, u64_max, Bool-cases,
}
use mergeshare.Control.{
  Slot, blank_slot, copy_text, slot, Registry, slowest_from, get_slowest_offset, register_slot,
  register_from,
}

slowest_from-le_start : (ss : List Slot) (m : ℕ) → slowest_from ss m ≤ m
unfolding slowest_from
slowest_from-le_start [] m = omega arith
slowest_from-le_start (s ∷ ss) m =
    ground (
      arith,
      slowest_from-le_start ss (if s.active && ltb s.read_offset m then s.read_offset else m),
    )

slowest_from-le :
    (ss : List Slot) (m i : ℕ)
    → (get_or ss i blank_slot).active ≡ true
    → slowest_from ss m ≤ (get_or ss i blank_slot).read_offset
unfolding slowest_from
slowest_from-le [] m i on = cc
slowest_from-le (s ∷ ss) m zero on =
    ground (
      arith,
      slowest_from-le_start ss (if s.active && ltb s.read_offset m then s.read_offset else m),
    )
slowest_from-le (s ∷ ss) m (suc i) on = slowest_from-le ss _ i on

slowest_from-attained :
    (ss : List Slot) (m : ℕ)
    → (slowest_from ss m ≡ m)
      ⊎ ((i : ℕ) × ((get_or ss i blank_slot).active ≡ true)
          × ((get_or ss i blank_slot).read_offset ≡ slowest_from ss m))
unfolding slowest_from
slowest_from-attained [] m = inl refl
slowest_from-attained (s ∷ ss) m =
    elim (slowest_from-attained ss (if s.active && ltb s.read_offset m then s.read_offset else m)) [
      | inl e ↦ elim (Bool-cases (s.active && ltb s.read_offset m)) [
        | inl new ↦ inr (0, ground arith, ground arith)
        | inr old ↦ inl (ground arith)
      ]
      | inr (i, on, e) ↦ inr (suc i, on, e)
    ]

-- No active consumer is before the slowest offset.
pub get_slowest_offset-le :
    (r : Registry) (i : ℕ)
    → (slot r i).active ≡ true
    → get_slowest_offset r ≤ (slot r i).read_offset
unfolding get_slowest_offset
get_slowest_offset-le r i on = ground (arith, slowest_from-le r.slots u64_max i on)

-- It is 0, or the offset of an active consumer.
pub get_slowest_offset-attained :
    (r : Registry)
    → (get_slowest_offset r ≡ 0)
      ⊎ ((i : ℕ) × ((slot r i).active ≡ true) × ((slot r i).read_offset ≡ get_slowest_offset r))
unfolding get_slowest_offset
get_slowest_offset-attained r = elim (Bool-cases (slowest_from r.slots u64_max == u64_max)) [
  | inl e ↦ inl (ground arith)
  | inr ne ↦ elim (slowest_from-attained r.slots u64_max) [
    | inl at ↦ absurd (ground arith)
    | inr (i, on, at) ↦ inr (i, on, ground arith)
  ]
]

-- A slot that `register_consumer` takes was free.
pub register_from-cases :
    (k : ℕ) (ss : List Slot) (id : List ℕ) (start now : ℕ)
    → ((register_from k ss id start now ≡ none)
        × ((i : ℕ) → i < length ss → (get_or ss i blank_slot).active ≡ true))
      ⊎ ((i : ℕ) × (t : Slot) × (i < length ss)
          × ((get_or ss i blank_slot).active ≡ false)
          × (register_from k ss id start now ≡ some (k + i, set ss i t))
          × (t.active ≡ true)
          × (t.read_offset ≡ start))
unfolding register_from register_slot
register_from-cases k [] id start now = inl (refl, λ i lt. absurd (omega arith))
register_from-cases k (s ∷ ss) id start now = elim (Bool-cases s.active) [
  | inr off ↦ inr (
    0,
    t,
    omega arith,
    off,
    rw off (ap (λ n. some (n, t ∷ ss)) {y = k + 0} (omega arith)),
    refl,
    refl,
  )
  | inl on ↦ elim (register_from-cases (k + 1) ss id start now) [
    | inl (e, busy) ↦ inl (ground (arith, on, e), λ i lt. all_busy on busy i lt)
    | inr (i, u, lt, off, e, up, at) ↦ inr (
      suc i,
      u,
      omega arith,
      off,
      taken on e ∙ ap (λ n. some (n, s ∷ set ss i u)) {y = k + suc i} (omega arith),
      up,
      at,
    )
  ]
]
  where
    t : Slot
    t = record {
      read_offset = start;
      active = true;
      consumer_id = copy_text 31 id;
      last_access_time = now;
    }

    all_busy :
        s.active ≡ true
        → ((i : ℕ) → i < length ss → (get_or ss i blank_slot).active ≡ true)
        → (i : ℕ) → i < suc (length ss)
        → (get_or (s ∷ ss) i blank_slot).active ≡ true
    all_busy on busy zero lt = on
    all_busy on busy (suc i) lt = busy i (omega arith)

    taken :
        {n : ℕ} {ts : List Slot}
        → s.active ≡ true
        → register_from (k + 1) ss id start now ≡ some (n, ts)
        → register_from k (s ∷ ss) id start now ≡ some (n, s ∷ ts)
    taken on e = ground (arith, on, e)
