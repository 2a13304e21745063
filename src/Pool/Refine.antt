-- ===== src/Pool/Refine.antt =====
-- A pool against its specification: a stack of free indices beside the indices that are held.
use mergeshare.Prelude.{
  ℕ, ◌<◌, ◌^◌, ◌≡◌, ◌≢◌, subst, Bool, List, [], ◌∷◌, some, arith, length, length-set, ℤ, pos,
  minus_one, to_i32-pos,
}
use mergeshare.FreeList.{Chain, Chain-push, Chain-init, length-link_from}
use mergeshare.FreeList.Partition.{
  count, count_from, without, Partition, Partition-init, Partition-take, Partition-give,
  Partition-held,
}
use mergeshare.Pool.{Pool, create, formatted, unlink_head, link_block}

-- The segment's free list reads as `free`, top first; `held` are the blocks in use.
pub record Represents (p : Pool) (free held : List ℕ) : Type 0 where
  pub chain : Chain p.free_list p.free_head free
  pub parts : Partition p.block_count free held
  pub counted : p.free_count ≡ length free
  pub sized : length p.free_list ≡ p.block_count
  pub small : p.block_count < 2 ^ 31

formatted-Represents :
    (header_size pool_id block_size block_count : ℕ)
    → 0 < block_count
    → block_count < 2 ^ 31
    → Represents
        (formatted header_size pool_id block_size block_count)
        (count_from block_count 0)
        []
unfolding formatted
formatted-Represents h i s n lt small = record {
  chain = Chain-init n lt small;
  parts = Partition-init n;
  counted = omega (arith, (Partition-init n).total);
  sized = length-link_from n n 0;
  small = small;
}

-- What `create` makes has every block free, the first on top.
pub create-Represents :
    (shm_open : ℕ → Bool) (header_size pool_id block_size block_count : ℕ) {p : Pool}
    → 0 < block_count
    → block_count < 2 ^ 31
    → create shm_open header_size pool_id block_size block_count ≡ some p
    → Represents p (count_from block_count 0) []
unfolding create
create-Represents shm_open h i s n {p} lt small e =
    subst (λ q. Represents q (count_from n 0) []) made (formatted-Represents h i s n lt small)
  where
    made : formatted h i s n ≡ p
    made = ground arith

-- The specification of `allocate_block`: the top of the stack, -1 for an empty one.
unfoldable pub take_top : List ℕ → List ℕ → ℤ × List ℕ × List ℕ
take_top [] held = (minus_one, [], held)
take_top (b ∷ free) held = (pos b, free, b ∷ held)

pub unlink_head-Represents :
    {p : Pool} (free held : List ℕ)
    → Represents p free held
    → let (b, free', held') = take_top free held in
      ((unlink_head p).0 ≡ b) × Represents (unlink_head p).1 free' held'
unfolding unlink_head take_top
unlink_head-Represents {p} [] held r = ground (arith, r)
unlink_head-Represents {p} (b ∷ free) held r = ground (arith, r, Partition-take b r.parts)

pub link_block-Represents :
    {p : Pool} {free held : List ℕ} (b : ℕ)
    → count b held ≢ 0
    → Represents p free held
    → Represents (link_block p (pos b)) (b ∷ free) (without b held)
unfolding link_block
link_block-Represents {p} {free} {held} b h r = ground (
  arith,
  r,
  Partition-give b h r.parts,
  Partition-held b r.parts h,
  Chain-push p.free_list p.free_head free b,
  length-set p.free_list b p.free_head,
  to_i32-pos p.block_count,
)
