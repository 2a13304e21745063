-- ===== src/Slots.antt =====
-- Arrays of slots in shared memory, as global_registry.hpp keeps them: a slot is free while its id is 0,
-- and a loop from the front rewrites the first slot with some id.
use mergeshare.Prelude.{
  ℕ, zero, suc, ◌+◌, ◌-◌, ◌≤◌, ◌<◌, ◌≡◌, ◌⊎◌, inl, inr, refl, List, [], ◌∷◌, Option, none, some,
  arith, length, get_or, set, replicate, length-replicate, ◌==◌, if◌then◌else◌, Bool-cases,
}

abbrev pub hit : ℕ → ℕ → ℕ
hit id j = if id == j then 1 else 0

module _ {B : Type 0} (id_of : B → ℕ) where
  -- The first slot whose id is `id` is rewritten by `f`; `none` if there is no such slot.
  unfoldable pub rewrite_first : ℕ → (B → B) → List B → Option (List B)
  rewrite_first id f [] = none
  rewrite_first id f (b ∷ bs) =
      let rest = rewrite_first id f bs in
      if id_of b == id then some (f b ∷ bs) else elim rest [ none ↦ none | some cs ↦ some (b ∷ cs) ]

  -- The number of slots with an id.
  abbrev pub holding : ℕ → List B → ℕ
  holding j [] = 0
  holding j (b ∷ bs) = hit (id_of b) j + holding j bs

  -- What the loop does to the numbers of slots with each id, when it writes the id `new`.
  abbrev pub Rewritten : ℕ → ℕ → List B → Option (List B) → Type 0
  Rewritten id new bs out =
      ((out ≡ none) × (holding id bs ≡ 0))
      ⊎ ((cs : List B) × (out ≡ some cs)
          × (length cs ≡ length bs)
          × (0 < holding id bs)
          × ((j : ℕ) → holding j cs + hit id j ≡ holding j bs + hit new j))

  pub rewrite_first-Rewritten :
      (id new : ℕ) (f : B → B) (bs : List B)
      → ((b : B) → id_of (f b) ≡ new)
      → Rewritten id new bs (rewrite_first id f bs)
  unfolding rewrite_first
  rewrite_first-Rewritten id new f [] is_new = inl (refl, refl)
  rewrite_first-Rewritten id new f (b ∷ bs) is_new = elim (Bool-cases (id_of b == id)) [
    | inl e ↦ rw e (inr (f b ∷ bs, refl, refl, ground arith, λ j. ground (arith, is_new b)))
    | inr e ↦ elim (rewrite_first-Rewritten id new f bs is_new) [
      | inl (o, zero_left) ↦ rw (e, o) (inl (refl, ground arith))
      | inr (cs, o, same, some_left, counts) ↦
          rw (e, o) (inr (b ∷ cs, refl, ground arith, ground arith, λ j. ground (arith, counts j)))
    ]
  ]

  pub holding-replicate :
      (n j : ℕ) (b : B) → id_of b ≡ 0 → holding j (replicate n b) ≡ (if j == 0 then n else 0)
  holding-replicate zero j b free = ground arith
  holding-replicate (suc n) j b free = ground (arith, holding-replicate n j b free)

  pub holding-le : (j : ℕ) (bs : List B) → holding j bs ≤ length bs
  holding-le j [] = omega arith
  holding-le j (b ∷ bs) = ground (arith, holding-le j bs)

  -- Of `max` slots, each is free or holds an id that no other slot holds, below the next one, and
  -- `count` is the number of slots that are not free.
  pub record HasIds (max count next : ℕ) (slots : List B) : Type 0 where
    pub sized : length slots ≡ max
    pub counted : count + holding 0 slots ≡ max
    pub started : 0 < next
    pub known : (j : ℕ) → next ≤ j → holding j slots ≡ 0
    pub unique : (j : ℕ) → 0 < j → holding j slots ≤ 1

  pub HasIds-replicate : (max : ℕ) (b : B) → id_of b ≡ 0 → HasIds max 0 1 (replicate max b)
  HasIds-replicate max b free = record {
    sized = length-replicate max b;
    counted = ground (arith, holding-replicate max 0 b free);
    started = omega arith;
    known = λ j h. ground (arith, holding-replicate max j b free);
    unique = λ j h. ground (arith, holding-replicate max j b free);
  }

  -- A free slot gets the next id.
  pub HasIds-fill :
      {max count next : ℕ} (slots cs : List B)
      → HasIds max count next slots
      → length cs ≡ length slots
      → 0 < holding 0 slots
      → ((j : ℕ) → holding j cs + hit 0 j ≡ holding j slots + hit next j)
      → HasIds max (count + 1) (next + 1) cs
  HasIds-fill slots cs ok same some_free counts = record {
    sized = ground (arith, ok.sized);
    counted = ground (arith, ok.counted, ok.started, counts 0);
    started = omega arith;
    known = λ j h. ground (arith, counts j, ok.known j, ok.started);
    unique = λ j h. ground (arith, counts j, ok.unique j, ok.known j);
  }

  -- The slot of an id becomes free.
  pub HasIds-clear :
      {max count next : ℕ} (id : ℕ) (slots cs : List B)
      → HasIds max count next slots
      → length cs ≡ length slots
      → 0 < id
      → 0 < holding id slots
      → ((j : ℕ) → holding j cs + hit id j ≡ holding j slots + hit 0 j)
      → (0 < count) × HasIds max (count - 1) next cs
  HasIds-clear id slots cs ok same real present counts = (
    ground (arith, ok.counted, counts 0, holding-le 0 cs, ok.sized),
    record {
      sized = ground (arith, ok.sized);
      counted = ground (arith, ok.counted, counts 0, holding-le 0 cs, ok.sized);
      started = ok.started;
      known = λ j h. ground (arith, counts j, ok.known j, ok.started);
      unique = λ j h. ground (arith, counts j, ok.unique j);
    },
  )

  -- A write to one slot.
  pub holding-set :
      (j : ℕ) (bs : List B) (i : ℕ) (v d : B)
      → i < length bs
      → holding j (set bs i v) + hit (id_of (get_or bs i d)) j ≡ holding j bs + hit (id_of v) j
  holding-set j [] i v d lt = absurd (omega arith)
  holding-set j (b ∷ bs) zero v d lt = omega arith
  holding-set j (b ∷ bs) (suc i) v d lt = omega (arith, holding-set j bs i v d (omega arith))

  pub holding-pos :
      (bs : List B) (i : ℕ) (d : B) → i < length bs → 0 < holding (id_of (get_or bs i d)) bs
  holding-pos [] i d lt = absurd (omega arith)
  holding-pos (b ∷ bs) zero d lt = ground arith
  holding-pos (b ∷ bs) (suc i) d lt = omega (arith, holding-pos bs i d (omega arith))
