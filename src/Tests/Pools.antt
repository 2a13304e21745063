-- ===== src/Tests/Pools.antt =====
-- A pool of two blocks, and calls on it.
use mergeshare.Prelude.{ℕ, ◌≡◌, refl, Bool, true, some, arith, [], ◌∷◌}
use mergeshare.FreeList.Partition.{count_from}
use mergeshare.Pool.{Pool, create, formatted, unlink_head}
use mergeshare.Pool.Refine.{Represents, create-Represents}

abbrev pub always : ℕ → Bool
always n = true

-- Two blocks of 16 bytes behind a header of 64
abbrev pub pool : Pool
pool = formatted 64 0 16 2

pub made : create always 64 0 16 2 ≡ some pool
unfolding create
made = refl

pub pool-Represents : Represents pool (0 ∷ 1 ∷ []) []
unfolding count_from
pool-Represents = create-Represents always 64 0 16 2 (omega arith) (omega arith) made

-- After block 0 was taken
abbrev taken : Pool
taken = (unlink_head pool).1

no_blocks_made : create always 64 0 16 0 ≡ some (formatted 64 0 16 0)
unfolding create
no_blocks_made = refl
