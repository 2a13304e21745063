-- ===== src/Runtime/Create.antt =====
-- runtime.hpp: `create_block` and `remove_block`.
use mergeshare.Prelude.{
  ℕ, ◌≡◌, ◌≢◌, true, Option, none, some, arith, if◌then◌else◌, ◌==◌, add32, ap,
}
use mergeshare.Prelude.Dict.{lookup, insert, nat_keys, lookup-insert}
use mergeshare.Block.{Block, set_id}
use mergeshare.Scheduler.Table.{register_block-none}
use mergeshare.Runtime.{Runtime, get_block, store_block, allocate_block_id, create_block}
use mergeshare.Runtime.Register.{store_block-get_block}

-- What the scheduler knows under an id
abbrev pub scheduled : Runtime → ℕ → Option ℕ
scheduled rt j = lookup nat_keys j rt.scheduler.blocks

module _ (rt : Runtime) (b : Block) (p : ℕ) (on : rt.initialized ≡ true)
    (real : rt.next_block_id ≢ 0)
    (free : lookup nat_keys rt.next_block_id rt.scheduler.blocks ≡ none) where
  abbrev pub stored : Runtime
  stored =
      store_block (record rt { next_block_id = add32 rt.next_block_id 1 }) rt.next_block_id p
        (set_id b rt.next_block_id)

  pub create_block-eq : create_block rt (some b) p ≡ (
    record stored {
      scheduler = record rt.scheduler {
        blocks = insert nat_keys rt.next_block_id p rt.scheduler.blocks;
      };
    },
    some p,
  )
  unfolding create_block allocate_block_id store_block
  create_block-eq =
      ground
        (arith, on, real, ap (λ x. x.0) (register_block-none rt.scheduler rt.next_block_id p free))

  pub created :
      let made = (create_block rt (some b) p).0 in
      ((j : ℕ) → get_block made j ≡ (if rt.next_block_id == j then some p else get_block rt j))
      × ((j : ℕ) → scheduled made j ≡ (if rt.next_block_id == j then some p else scheduled rt j))
      × (made.objects p ≡ some (set_id b rt.next_block_id))
  unfolding get_block store_block
  created =
      let base = record rt { next_block_id = add32 rt.next_block_id 1 } in
      rw create_block-eq (
        (λ j. (store_block-get_block base rt.next_block_id p (set_id b rt.next_block_id) j).0),
        (λ j. lookup-insert nat_keys rt.next_block_id j p rt.scheduler.blocks),
        (store_block-get_block base rt.next_block_id p (set_id b rt.next_block_id) 0).1,
      )
