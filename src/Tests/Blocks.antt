-- ===== src/Tests/Blocks.antt =====
-- The registry of blocks: one source block with id 1 joins, and leaves.
use mergeshare.Prelude.{ℕ, ◌+◌, ◌<◌, ◌≡◌, ◌⊎◌, inl, inr, refl, some, [], ◌∷◌, arith, pos, minus_one}
use mergeshare.Slots.{hit, rewrite_first}
use mergeshare.Blocks.{
  BlockRegistry, source, initialize_blocks, register_block, unregister_block, fill_block,
  clear_block, find_slot_by_id, find_block_from, max_blocks,
}
use mergeshare.Blocks.Ids.{
  holding_block, IsRegistry, initialize_blocks-IsRegistry, register_block-IsRegistry,
}

abbrev announced : ℕ × BlockRegistry
announced = register_block initialize_blocks (some (99 ∷ 97 ∷ 109 ∷ [])) source 7 1000

announced-id : announced.0 ≡ 1
unfolding register_block initialize_blocks rewrite_first
announced-id = refl

announced-count : announced.1.block_count ≡ 1
unfolding register_block initialize_blocks rewrite_first
announced-count = refl

announced-slot : find_slot_by_id announced.1 1 ≡ pos 0
unfolding register_block initialize_blocks rewrite_first fill_block find_slot_by_id find_block_from
announced-slot = refl

withdrawn-slot : find_slot_by_id (unregister_block announced.1 1) 1 ≡ minus_one
unfolding register_block initialize_blocks rewrite_first fill_block unregister_block clear_block
    find_slot_by_id find_block_from
withdrawn-slot = refl

withdrawn-none : (unregister_block announced.1 0).block_count ≡ 0
unfolding register_block initialize_blocks rewrite_first fill_block unregister_block clear_block
withdrawn-none = refl

initial-next : initialize_blocks.next_block_id ≡ 1
unfolding initialize_blocks
initial-next = refl

initial-count : initialize_blocks.block_count ≡ 0
unfolding initialize_blocks
initial-count = refl

register_block-IsRegistry_example :
    ((initialize_blocks.block_count ≡ max_blocks) × (announced ≡ (0, initialize_blocks)))
    ⊎ ((initialize_blocks.block_count < max_blocks)
        × (announced.0 ≡ initialize_blocks.next_block_id)
        × (announced.1.block_count ≡ initialize_blocks.block_count + 1)
        × ((j : ℕ)
            → 0 < j
            → holding_block j announced.1.blocks
              ≡ hit initialize_blocks.next_block_id j + holding_block j initialize_blocks.blocks)
        × IsRegistry announced.1)
register_block-IsRegistry_example =
    register_block-IsRegistry initialize_blocks (some (99 ∷ 97 ∷ 109 ∷ [])) source 7 1000
      initialize_blocks-IsRegistry (omega (arith, initial-next))

-- The registry with that block is well-formed.
announced-IsRegistry : IsRegistry announced.1
announced-IsRegistry =
    elim (register_block-IsRegistry initialize_blocks (some (99 ∷ 97 ∷ 109 ∷ [])) source 7 1000
      initialize_blocks-IsRegistry (omega (arith, initial-next))) [
        | inl (full, _) ↦ absurd (omega (arith, initial-count))
        | inr (_, _, _, _, ok) ↦ ok
      ]
