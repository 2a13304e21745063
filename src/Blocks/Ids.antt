-- ===== src/Blocks/Ids.antt =====
-- Blocks.antt: the ids of the registered blocks are distinct and real, and `block_count` is their
-- number.
use mergeshare.Prelude.{
  add32, sub32, ℕ, ◌+◌, ◌-◌, ◌^◌, ◌<◌, ◌≡◌, ◌≢◌, ◌⊎◌, inl, inr, refl, List, Option, none, some,
  arith, length, subst,
}
use mergeshare.Slots.{
  hit, holding, rewrite_first, rewrite_first-Rewritten, HasIds, HasIds-replicate, HasIds-fill,
  HasIds-clear,
}
use mergeshare.Blocks.{
  block_id_of, BlockInfo, BlockType, BlockRegistry, blank_block, initialize_blocks, fill_block,
  register_block, clear_block, unregister_block, max_blocks,
}

-- The number of slots with an id.
abbrev pub holding_block : ℕ → List BlockInfo → ℕ
holding_block j bs = holding block_id_of j bs

-- Every slot is free or holds an id that no other slot holds, below the next one; `block_count` is
-- the number of slots that are not free.
abbrev pub IsRegistry : BlockRegistry → Type 0
IsRegistry r = HasIds block_id_of max_blocks r.block_count r.next_block_id r.blocks

-- The registry that `initialize` sets up is well-formed: every slot is free, no id is given out.
pub initialize_blocks-IsRegistry : IsRegistry initialize_blocks
unfolding initialize_blocks
initialize_blocks-IsRegistry = HasIds-replicate block_id_of max_blocks blank_block refl

-- The two outcomes of each method as equations.
module _ (r : BlockRegistry) (name : Option (List ℕ)) (kind : BlockType) (process now : ℕ) where
  abbrev filled : Option (List BlockInfo)
  filled = rewrite_first block_id_of 0 (fill_block r.next_block_id name kind process now) r.blocks

  register_block-full : filled ≡ none → register_block r name kind process now ≡ (0, r)
  unfolding register_block
  register_block-full o = rw (o, register_block) refl

  pub register_block-free :
      (bs : List BlockInfo)
      → filled ≡ some bs
      → register_block r name kind process now ≡ (
        r.next_block_id,
        record {
          block_count = add32 r.block_count 1;
          next_block_id = add32 r.next_block_id 1;
          blocks = bs;
        },
      )
  unfolding register_block
  register_block-free bs o = rw (o, register_block) refl

unregister_block-absent :
    (r : BlockRegistry) (id : ℕ)
    → rewrite_first block_id_of id clear_block r.blocks ≡ none
    → unregister_block r id ≡ r
unfolding unregister_block
unregister_block-absent r id o = rw (o, unregister_block) refl

pub unregister_block-present :
    (r : BlockRegistry) (id : ℕ) (bs : List BlockInfo)
    → rewrite_first block_id_of id clear_block r.blocks ≡ some bs
    → unregister_block r id ≡ record r { block_count = sub32 r.block_count 1; blocks = bs }
unfolding unregister_block
unregister_block-present r id bs o = rw (o, unregister_block) refl

pub fill_block-block_id :
    (bid : ℕ) (name : Option (List ℕ)) (kind : BlockType) (process now : ℕ) (b : BlockInfo)
    → (fill_block bid name kind process now b).block_id ≡ bid
unfolding fill_block
fill_block-block_id bid name kind process now b = refl

pub clear_block-block_id : (b : BlockInfo) → (clear_block b).block_id ≡ 0
unfolding clear_block
clear_block-block_id b = refl

filled_ids :
    {r : BlockRegistry}
    → IsRegistry r
    → r.next_block_id + 1 < 2 ^ 32
    → (bs : List BlockInfo) → length bs ≡ length r.blocks
    → 0 < holding_block 0 r.blocks
    → ((j : ℕ) → holding_block j bs + hit 0 j ≡ holding_block j r.blocks + hit r.next_block_id j)
    → HasIds block_id_of max_blocks (add32 r.block_count 1) (add32 r.next_block_id 1) bs
filled_ids {r} ok small bs same some_free counts =
    subst (λ (n : ℕ). HasIds block_id_of max_blocks (add32 r.block_count 1) n bs)
      {x = r.next_block_id + 1} (omega arith)
      (subst (λ (c : ℕ). HasIds block_id_of max_blocks c (r.next_block_id + 1) bs)
        {x = r.block_count + 1} (omega (arith, ok.counted))
        (HasIds-fill block_id_of r.blocks bs ok same some_free counts))

-- On a well-formed registry whose next id is not the last of 32 bits, `register_block` returns 0 and
-- changes nothing if all `MAX_BLOCKS` slots are taken; otherwise it returns the next id, which no
-- slot held and one slot holds now, keeps every other id, counts one block more, and leaves the
-- registry well-formed.
pub register_block-IsRegistry :
    (r : BlockRegistry) (name : Option (List ℕ)) (kind : BlockType) (process now : ℕ)
    → IsRegistry r
    → r.next_block_id + 1 < 2 ^ 32
    → let res = register_block r name kind process now in
      ((r.block_count ≡ max_blocks) × (res ≡ (0, r)))
      ⊎ ((r.block_count < max_blocks)
          × (res.0 ≡ r.next_block_id)
          × (res.1.block_count ≡ r.block_count + 1)
          × ((j : ℕ)
              → 0 < j
              → holding_block j res.1.blocks ≡ hit r.next_block_id j + holding_block j r.blocks)
          × IsRegistry res.1)
register_block-IsRegistry r name kind process now ok small =
    elim (rewrite_first-Rewritten block_id_of 0 r.next_block_id
      (fill_block r.next_block_id name kind process now) r.blocks
      (fill_block-block_id r.next_block_id name kind process now)) [
        | inl (o, no_free) ↦
            rw (register_block-full r name kind process now o)
              (inl (ground (arith, ok.counted), refl))
        | inr (bs, o, same, some_free, counts) ↦
            rw (register_block-free r name kind process now bs o) (
              inr (
                ground (arith, ok.counted),
                refl,
                ground (arith, ok.counted),
                (λ j h. ground (arith, counts j)),
                filled_ids ok small bs same some_free counts,
              ))
      ]

-- On a well-formed registry, `unregister_block` of an id other than 0 leaves no slot with the id,
-- keeps every other id, counts the slots that it frees (one if the id was registered, none if it was
-- not), and leaves the registry well-formed.
pub unregister_block-IsRegistry :
    (r : BlockRegistry) (id : ℕ)
    → IsRegistry r
    → 0 < id
    → (holding_block id (unregister_block r id).blocks ≡ 0)
      × ((j : ℕ)
          → 0 < j
          → j ≢ id
          → holding_block j (unregister_block r id).blocks ≡ holding_block j r.blocks)
      × ((unregister_block r id).block_count + holding_block id r.blocks ≡ r.block_count)
      × IsRegistry (unregister_block r id)
unregister_block-IsRegistry r id ok real =
    elim (rewrite_first-Rewritten block_id_of id 0 clear_block r.blocks clear_block-block_id) [
      | inl (o, absent) ↦
          rw (unregister_block-absent r id o) (absent, (λ j h ne. refl), ground arith, ok)
      | inr (bs, o, same, present, counts) ↦
          let (some_taken, still) =
            HasIds-clear block_id_of id r.blocks bs ok same real present counts in
          rw (unregister_block-present r id bs o) (
            ground (arith, counts id, ok.unique id),
            (λ j h ne. ground (arith, counts j)),
            ground (arith, ok.unique id, some_taken, ok.counted),
            subst (λ (c : ℕ). HasIds block_id_of max_blocks c r.next_block_id bs)
                {x = r.block_count - 1} (omega (arith, some_taken, ok.counted)) still,
          )
    ]
