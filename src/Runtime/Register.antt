-- ===== src/Runtime/Register.antt =====
-- runtime.hpp: registering a block, and what is undone when it does not initialize.
use mergeshare.Prelude.{ℕ, ◌≡◌, ◌≢◌, refl, Bool, true, some, arith, if◌then◌else◌, ◌==◌}
use mergeshare.Prelude.Dict.{nat_keys, lookup-insert}
use mergeshare.Blocks.{BlockRegistry}
use mergeshare.Blocks
use mergeshare.Block.{Block, set_id}
use mergeshare.Runtime.{Runtime, Behaviour, get_block, store_block, register_block}

pub store_block-get_block :
    (rt : Runtime) (id p : ℕ) (b : Block) (j : ℕ)
    → (get_block (store_block rt id p b) j ≡ (if id == j then some p else get_block rt j))
      × ((store_block rt id p b).objects p ≡ some b)
      × ((store_block rt id p b).block_registry ≡ rt.block_registry)
unfolding get_block store_block
store_block-get_block rt id p b j = (lookup-insert nat_keys id j p rt.block_map, ground arith, refl)

module _ (class : Behaviour) (rt : Runtime) (b : Block) (p now : ℕ)
    (on : rt.initialized ≡ true) where
  abbrev pub entered : ℕ × BlockRegistry
  entered = Blocks.register_block rt.block_registry (some b.name) b.block_type rt.process_id now

  abbrev pub ready : Block × Bool
  ready = class.initialize (set_id b entered.0)

  pub register_block-kept :
      entered.0 ≢ 0
      → ready.1 ≡ true
      → register_block class rt (some b) p now
        ≡ (store_block (record rt { block_registry = entered.1 }) entered.0 p ready.0, entered.0)
  unfolding register_block
  register_block-kept e f = ground (arith, e, f, on)
