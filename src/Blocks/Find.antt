-- ===== src/Blocks/Find.antt =====
-- Blocks.antt: `find_slot_by_id`, and where a registered block is found.
use mergeshare.Prelude.{
  ℕ, suc, ◌+◌, ◌≤◌, ◌<◌, ◌^◌, ◌≡◌, refl, ap, ◌∙◌, inl, inr, List, [], ◌∷◌, Option, none, some,
  arith, length, get_or, ◌==◌, Bool-cases, pos, to_i32-pos, minus_one, ◌⊎◌,
}
use mergeshare.Slots.{rewrite_first}
use mergeshare.Blocks.{
  block_id_of, BlockInfo, BlockType, registered, BlockRegistry, blank_block, fill_block,
  register_block, unregister_block, find_block_from, find_slot_by_id, max_blocks,
}
use mergeshare.Blocks.Ids.{
  holding_block, IsRegistry, register_block-free, fill_block-block_id, unregister_block-IsRegistry,
}

-- The slot that the loop rewrote is the one where the search for the new id ends.
abbrev Placed : ℕ → (BlockInfo → BlockInfo) → ℕ → List BlockInfo → List BlockInfo → Type 0
Placed new f i bs cs =
    (j : ℕ) × (find_block_from new i cs ≡ pos (i + j))
    × (j < length bs)
    × (get_or cs j blank_block ≡ f (get_or bs j blank_block))

rewrite_first-Placed :
    (id new i : ℕ) (f : BlockInfo → BlockInfo) (bs : List BlockInfo)
    → ((b : BlockInfo) → (f b).block_id ≡ new)
    → holding_block new bs ≡ 0
    → i + length bs ≤ 2 ^ 31
    → ((rewrite_first block_id_of id f bs ≡ none) × (holding_block id bs ≡ 0))
      ⊎ ((cs : List BlockInfo) × (rewrite_first block_id_of id f bs ≡ some cs)
          × Placed new f i bs cs)
unfolding rewrite_first find_block_from
rewrite_first-Placed id new i f [] is_new fresh small = inl (refl, refl)
rewrite_first-Placed id new i f (b ∷ bs) is_new fresh small = elim (Bool-cases (b.block_id == id)) [
  | inl e ↦ rw e (
      inr (
        f b ∷ bs,
        refl,
        (0, ground (arith, is_new b, to_i32-pos i (omega arith)), omega arith, refl),
      ))
  | inr e ↦ elim (rewrite_first-Placed id new (i + 1) f bs is_new (ground arith) (omega arith)) [
    | inl (o, zero_left) ↦ rw (e, o) (inl (refl, ground arith))
    | inr (cs, o, (j, at_j, lt, eq)) ↦
        rw (e, o) (inr (b ∷ cs, refl, (suc j, ground (arith, at_j), omega arith, eq)))
  ]
]

-- The contents that `register_block` gives to a slot, whatever stood there.
abbrev pub Announces : BlockInfo → ℕ → BlockType → ℕ → ℕ → Type 0
Announces b bid kind process now =
    (b.block_id ≡ bid)
    × (b.block_type ≡ kind)
    × (b.state ≡ registered)
    × (b.owner_process ≡ process)
    × (b.create_time_ns ≡ now)

fill_block-Announces :
    (bid : ℕ) (name : Option (List ℕ)) (kind : BlockType) (process now : ℕ) (b : BlockInfo)
    → Announces (fill_block bid name kind process now b) bid kind process now
unfolding fill_block
fill_block-Announces bid name kind process now b = (refl, refl, refl, refl, refl)

-- On a well-formed registry with a free slot, `find_slot_by_id` finds the id that `register_block`
-- returned, at a slot that holds the type, the owner and the time of the call, as `REGISTERED`.
pub register_block-find_slot_by_id :
    (r : BlockRegistry) (name : Option (List ℕ)) (kind : BlockType) (process now : ℕ)
    → IsRegistry r
    → r.block_count < max_blocks
    → let res = register_block r name kind process now in
      (j : ℕ) × (find_slot_by_id res.1 res.0 ≡ pos j)
      × (j < max_blocks)
      × Announces (get_or res.1.blocks j blank_block) res.0 kind process now
unfolding find_slot_by_id
register_block-find_slot_by_id r name kind process now ok room =
    elim (rewrite_first-Placed 0 r.next_block_id 0
      (fill_block r.next_block_id name kind process now) r.blocks
      (fill_block-block_id r.next_block_id name kind process now)
      (ok.known r.next_block_id (omega arith)) (omega (arith, ok.sized))) [
        | inl (o, none_free) ↦ absurd (omega (arith, ok.counted))
        | inr (cs, o, (j, at_j, lt, eq)) ↦ rw (register_block-free r name kind process now cs o) (
          j,
          at_j ∙ ap pos (omega arith),
          omega (arith, ok.sized),
          rw eq (
              fill_block-Announces r.next_block_id name kind process now
                (get_or r.blocks j blank_block)),
        )
      ]

-- An id that no slot holds is not found.
find_block_from-missing :
    (id i : ℕ) (bs : List BlockInfo) → holding_block id bs ≡ 0 → find_block_from id i bs ≡ minus_one
unfolding find_block_from
find_block_from-missing id i [] h = refl
find_block_from-missing id i (b ∷ bs) h = ground (arith, find_block_from-missing id (i + 1) bs)

-- On a well-formed registry, `find_slot_by_id` does not find an id other than 0 after
-- `unregister_block` of it.
pub unregister_block-find_slot_by_id :
    (r : BlockRegistry) (id : ℕ)
    → IsRegistry r
    → 0 < id
    → find_slot_by_id (unregister_block r id) id ≡ minus_one
unfolding find_slot_by_id
unregister_block-find_slot_by_id r id ok real =
    find_block_from-missing id 0 (unregister_block r id).blocks
      (unregister_block-IsRegistry r id ok real).0
