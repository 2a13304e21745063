-- ===== src/Pool/Misuse.antt =====
-- What the pool does outside its contract: a block freed twice, and a pool of no blocks.
use mergeshare.Prelude.{
  ℕ, ◌≡◌, List, ◌∷◌, some, Bool, arith, pos, get_or-set_self, minus_one, to_i32-pos,
}
use mergeshare.FreeList.Partition.{Partition-free}
use mergeshare.Pool.{
  Pool, create, formatted, allocate_block, unlink_head, free_block, link_block, get_free_count,
}
use mergeshare.Pool.Refine.{Represents}

-- `free_block` does not notice that a block is free already: freeing the block `b` that is on top
-- of the free list makes the next two calls of `allocate_block` both return `b`.
pub free_block_twice :
    {p : Pool} {free held : List ℕ} (b : ℕ)
    → Represents p (b ∷ free) held
    → let q = free_block (some p) (pos b) in
      ((allocate_block q).0 ≡ pos b) × ((allocate_block (allocate_block q).1).0 ≡ pos b)
unfolding allocate_block free_block link_block unlink_head
free_block_twice {p} b r = ground (
  arith,
  r,
  Partition-free b r.parts,
  to_i32-pos p.block_count,
  get_or-set_self p.free_list b p.free_head minus_one,
)

-- A pool created with no blocks counts none as free, and yet `allocate_block` returns block 0
-- instead of -1.
pub create-no_blocks :
    (shm_open : ℕ → Bool) (header_size pool_id block_size : ℕ) {p : Pool}
    → create shm_open header_size pool_id block_size 0 ≡ some p
    → (get_free_count (some p) ≡ 0) × ((allocate_block (some p)).0 ≡ pos 0)
unfolding create formatted get_free_count allocate_block unlink_head
create-no_blocks shm_open h i s made = ground arith
