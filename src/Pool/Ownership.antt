-- ===== src/Pool/Ownership.antt =====
-- Who holds which block, over any sequence of calls on a pool.
use mergeshare.Prelude.{
  ℕ, ◌+◌, ◌<◌, ◌^◌, ◌≡◌, ◌≢◌, List, [], ◌∷◌, some, Bool, arith, length, pos, minus_one, refl, ◌↔◌,
}
use mergeshare.FreeList.Partition.{count, count_from, without}
use mergeshare.Pool.{
  Pool, create, allocate_block, unlink_head, free_block, link_block, get_free_count, formatted,
}
use mergeshare.Pool.Refine.{
  Represents, create-Represents, take_top, unlink_head-Represents, link_block-Represents,
}

-- A call on the segment `p`, by clients that hold the blocks `held`: each frees only what it holds.
pub data Step (p : Pool) (held : List ℕ) (q : Pool) : List ℕ → Type 0 where
  took : (b : ℕ) → allocate_block (some p) ≡ (pos b, some q) → Step p held q (b ∷ held)
  refused : allocate_block (some p) ≡ (minus_one, some q) → Step p held q held
  gave :
      (b : ℕ)
      → count b held ≢ 0
      → free_block (some p) (pos b) ≡ some q
      → Step p held q (without b held)

pub data Reach (p : Pool) : Pool → List ℕ → Type 0 where
  start : Reach p p []
  next : {q r : Pool} {held held' : List ℕ} → Reach p q held → Step q held r held' → Reach p r held'

-- Some list of free blocks makes up the rest of the `n` blocks.
pub record Owned (n : ℕ) (p : Pool) (held : List ℕ) : Type 0 where
  pub free : List ℕ
  pub represents : Represents p free held
  pub size : p.block_count ≡ n

module _ {p q : Pool} {held : List ℕ} where
  took-Represents :
      (free : List ℕ) (b : ℕ)
      → Represents p free held
      → allocate_block (some p) ≡ (pos b, some q)
      → Owned p.block_count q (b ∷ held)
  unfolding allocate_block take_top unlink_head
  took-Represents [] b r e = ground (arith, unlink_head-Represents [] held r)
  took-Represents (c ∷ free) b r e = record {
    free = free;
    represents = ground (arith, unlink_head-Represents (c ∷ free) held r);
    size = ground arith;
  }

  refused-Represents :
      (free : List ℕ)
      → Represents p free held
      → allocate_block (some p) ≡ (minus_one, some q)
      → (free ≡ []) × Represents q free held
  unfolding allocate_block take_top
  refused-Represents [] r e = (refl, ground (arith, unlink_head-Represents [] held r))
  refused-Represents (c ∷ free) r e = ground (arith, unlink_head-Represents (c ∷ free) held r)

Step-Owned :
    {n : ℕ} {p q : Pool} {held held' : List ℕ}
    → Owned n p held
    → Step p held q held'
    → Owned n q held'
unfolding free_block link_block
Step-Owned {n} {q} o (took b e) =
    let o' = took-Represents o.free b o.represents e in
    record { free = o'.free; represents = o'.represents; size = ground (arith, o'.size) }
Step-Owned o (refused e) =
    let (z, r) = refused-Represents o.free o.represents e in
    record { free = o.free; represents = r; size = ground (arith, o.size, r) }
Step-Owned {held} o (gave b h e) = record {
  free = b ∷ o.free;
  represents = ground (arith, link_block-Represents b h o.represents);
  size = ground (arith, o.size);
}

Reach-Owned : {n : ℕ} {p q : Pool} {held : List ℕ} → Owned n p [] → Reach p q held → Owned n q held
Reach-Owned o start = o
Reach-Owned o (next r st) = Step-Owned (Reach-Owned o r) st

created-Owned :
    (shm_open : ℕ → Bool) (header_size pool_id block_size block_count : ℕ) {p : Pool}
    → 0 < block_count
    → block_count < 2 ^ 31
    → create shm_open header_size pool_id block_size block_count ≡ some p
    → Owned block_count p []
unfolding create formatted
created-Owned shm_open h i s n lt small made = record {
  free = count_from n 0;
  represents = create-Represents shm_open h i s n lt small made;
  size = ground arith;
}

exhausted :
    {p : Pool} {held : List ℕ} (free : List ℕ)
    → Represents p free held
    → ((allocate_block (some p)).0 ≡ minus_one) ↔ (length held ≡ p.block_count)
unfolding allocate_block take_top
exhausted {held} [] r =
    (λ _. omega (arith, r.parts.total), λ _. (unlink_head-Represents [] held r).0)
exhausted {held} (b ∷ free) r = (
  λ e. ground (arith, unlink_head-Represents (b ∷ free) held r),
  λ e. absurd (omega (arith, r.parts.total)),
)

Owned-exhausted :
    {n : ℕ} {p : Pool} {held : List ℕ}
    → Owned n p held
    → (get_free_count (some p) + length held ≡ n)
      × (((allocate_block (some p)).0 ≡ minus_one) ↔ (length held ≡ n))
unfolding get_free_count
Owned-exhausted {held} o = (
  omega (arith, o.size, o.represents.counted, o.represents.parts.total),
  rw (← o.size) (exhausted o.free o.represents),
)

-- In every state that calls lead to from a created pool of `block_count` blocks, above 0 and below
-- 2^31: the free count and the blocks held make up the pool, and `allocate_block` fails exactly
-- when all blocks are held.
pub allocate_block-exhausted :
    (shm_open : ℕ → Bool) (header_size pool_id block_size block_count : ℕ) {p q : Pool}
    {held : List ℕ}
    → 0 < block_count
    → block_count < 2 ^ 31
    → create shm_open header_size pool_id block_size block_count ≡ some p
    → Reach p q held
    → (get_free_count (some q) + length held ≡ block_count)
      × (((allocate_block (some q)).0 ≡ minus_one) ↔ (length held ≡ block_count))
allocate_block-exhausted shm_open h i s n lt small made reach =
    Owned-exhausted (Reach-Owned (created-Owned shm_open h i s n lt small made) reach)
