-- ===== src/Runtime/Clash.antt =====
-- runtime.hpp: ids of `allocate_block_id`, which are the process's own, next to those of the shared
-- registry.
use mergeshare.Prelude.{ℕ, some}
use mergeshare.Blocks
use mergeshare.Block.{Block}
use mergeshare.Runtime.{Runtime, Behaviour, create_block}

module _ (class : Behaviour) (rt : Runtime) (b : Block) (p : ℕ) where
  abbrev made : Runtime
  made = (create_block rt (some b) p).0
