-- ===== src/FreeList/Partition.antt =====
-- Indices below a bound, each either free or held, and never twice: the bookkeeping of a free list.
use mergeshare.Prelude.{
  ℕ, zero, suc, ◌+◌, ◌≤◌, ◌<◌, ◌≡◌, refl, ap, ◌≢◌, List, [], ◌∷◌, arith, length, ltb, ◌==◌,
  if◌then◌else◌,
}

unfoldable pub count : ℕ → List ℕ → ℕ
count b [] = 0
count b (x ∷ xs) = (if b == x then 1 else 0) + count b xs

-- i, i + 1, …, i + k - 1
unfoldable pub count_from : ℕ → ℕ → List ℕ
count_from zero i = []
count_from (suc k) i = i ∷ count_from k (i + 1)

-- Without the first occurrence of `b`.
unfoldable pub without : ℕ → List ℕ → List ℕ
without b [] = []
without b (x ∷ xs) = if b == x then xs else x ∷ without b xs

pub record Partition (n : ℕ) (free held : List ℕ) : Type 0 where
  pub once : (b : ℕ) → count b free + count b held ≡ (if ltb b n then 1 else 0)
  pub total : length free + length held ≡ n

length-count_from : (k i : ℕ) → length (count_from k i) ≡ k
unfolding count_from
length-count_from zero i = refl
length-count_from (suc k) i = ap suc (length-count_from k (i + 1))

count-count_from_below : (k i b : ℕ) → b < i → count b (count_from k i) ≡ 0
unfolding count count_from
count-count_from_below zero i b h = refl
count-count_from_below (suc k) i b h =
    ground (arith, count-count_from_below k (i + 1) b (omega arith))

count-count_from : (k i b : ℕ) → i ≤ b → count b (count_from k i) ≡ (if ltb b (i + k) then 1 else 0)
unfolding count count_from
count-count_from zero i b h = ground arith
count-count_from (suc k) i b h =
    ground (arith, count-count_from_below k (i + 1) b, count-count_from k (i + 1) b)

pub Partition-init : (n : ℕ) → Partition n (count_from n 0) []
unfolding count
Partition-init n = record {
  once = λ b. ground (arith, count-count_from n 0 b (omega arith));
  total = omega (arith, length-count_from n 0);
}

count-without :
    (b k : ℕ) (xs : List ℕ)
    → count b xs ≢ 0
    → count k (without b xs) + (if k == b then 1 else 0) ≡ count k xs
unfolding count without
count-without b k [] h = absurd (h refl)
count-without b k (x ∷ xs) h = ground (arith, count-without b k xs)

pub without-cons_self : (b : ℕ) (xs : List ℕ) → without b (b ∷ xs) ≡ xs
unfolding without
without-cons_self b xs = ground arith

pub count-cons_self : (b : ℕ) (xs : List ℕ) → count b (b ∷ xs) ≢ 0
unfolding count
count-cons_self b xs = ground arith

pub count-without_ne : (b k : ℕ) (xs : List ℕ) → b ≢ k → count k (without b xs) ≡ count k xs
unfolding count without
count-without_ne b k [] h = refl
count-without_ne b k (x ∷ xs) h = ground (arith, count-without_ne b k xs h)

length-without : (b : ℕ) (xs : List ℕ) → count b xs ≢ 0 → length (without b xs) + 1 ≡ length xs
unfolding count without
length-without b [] h = absurd (h refl)
length-without b (x ∷ xs) h = ground (arith, length-without b xs)

module _ {n : ℕ} {free held : List ℕ} (b : ℕ) where
  pub Partition-take : Partition n (b ∷ free) held → Partition n free (b ∷ held)
  unfolding count
  Partition-take p = record { once = λ k. omega (arith, p.once k); total = omega (arith, p.total) }

  pub Partition-give :
      count b held ≢ 0 → Partition n free held → Partition n (b ∷ free) (without b held)
  unfolding count
  Partition-give h p = record {
    once = λ k. omega (arith, p.once k, count-without b k held h);
    total = omega (arith, p.total, length-without b held h);
  }

  -- What is held is in range and not free.
  pub Partition-held : Partition n free held → count b held ≢ 0 → (b < n) × (count b free ≡ 0)
  Partition-held p h = ground (arith, p.once b)

  -- What is free is not held.
  pub Partition-free :
      Partition n (b ∷ free) held → (b < n) × (count b held ≡ 0) × (count b free ≡ 0)
  unfolding count
  Partition-free p = ground (arith, p.once b)
