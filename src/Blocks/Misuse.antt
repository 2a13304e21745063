-- ===== src/Blocks/Misuse.antt =====
-- Blocks.antt: `unregister_block` on the id that stands for none.
use mergeshare.Prelude.{ℕ, ◌<◌, ◌≡◌, refl, inl, inr, arith, sub32}
use mergeshare.Slots.{rewrite_first-Rewritten}
use mergeshare.Blocks.{block_id_of, BlockRegistry, clear_block, unregister_block, max_blocks}
use mergeshare.Blocks.Ids.{
  holding_block, clear_block-block_id, unregister_block-present, IsRegistry,
}

-- On a well-formed registry with a free slot, `unregister_block` of 0 keeps every id in its number
-- of slots and still takes one from `block_count`, with wrap-around, so the registry is no longer
-- well-formed.
pub unregister_block-invalid :
    (r : BlockRegistry)
    → IsRegistry r
    → r.block_count < max_blocks
    → ((j : ℕ) → holding_block j (unregister_block r 0).blocks ≡ holding_block j r.blocks)
      × ((unregister_block r 0).block_count ≡ sub32 r.block_count 1)
      × (¬ IsRegistry (unregister_block r 0))
unregister_block-invalid r ok room =
    elim (rewrite_first-Rewritten block_id_of 0 0 clear_block r.blocks clear_block-block_id) [
      | inl (o, none_free) ↦ absurd (omega (arith, ok.counted))
      | inr (bs, o, same, some_free, counts) ↦ rw (unregister_block-present r 0 bs o) (
        (λ j. ground (arith, counts j)),
        refl,
        (λ bad. ground (arith, bad.counted, ok.counted, counts 0)),
      )
    ]
