-- ===== src/Allocator/Reclaim.antt =====
-- `deallocate` and `get_buffer_data` as the handles of a process see them: which ids are live and
-- what their counts are.
use mergeshare.Prelude.{
  ℕ, ◌≡◌, ◌≢◌, inl, inr, refl, sym, ap, subst, ◌∙◌, true, false, not, ◌&&◌, List, ◌∷◌, Option,
  arith, if◌then◌else◌, ◌==◌, pos, minus_one, ℕ_discrete,
}
use mergeshare.FreeList.Partition.{without, Partition-held}
use mergeshare.Meta.{
  Metadata, Table, entry, set_entry, free_slot, find_slot_by_id, bump_ref, drop_ref,
}
use mergeshare.Meta.Find.{Holds, IsSized, find_slot_by_id_lem, find_slot_by_id-missing}
use mergeshare.Meta.Slots.{IsTable, free_slot-IsTable, entry-set}
use mergeshare.Meta.Publish.{invalidate-IsTable, rewrite-IsTable, IsTable-find}
use mergeshare.Allocator.{
  World, Name, set_meta, release_block, recycle, deallocate, get_ref_count, add_ref, remove_ref,
  get_buffer_data, ensure_pool, auto_register_pool, register_pool,
}
use mergeshare.Allocator.Counts.{is_live, at_buffer-cases}

-- A table in order, whatever its free slots are.
abbrev pub Good : World → Type 0
Good w = (free : List ℕ) × (held : List ℕ) × IsTable w.table free held

release_block-table : (w : World) (m : Metadata) → (release_block w m).table ≡ w.table
unfolding release_block
release_block-table w m = ground arith

-- The table after the slot `s` went back.
abbrev cleared : World → ℕ → Table
cleared w s = free_slot (set_entry w.table s (record (entry w.table s) { valid = false })) (pos s)

recycle-table : (w : World) (s : ℕ) → (recycle w s).table ≡ cleared w s
unfolding recycle
recycle-table w s =
    ap (λ t. free_slot t (pos s))
      (release_block-table (set_meta w s (record (entry w.table s) { valid = false }))
        (entry w.table s))

-- A table without the slot `s`.
record IsWithout (t u : Table) (s : ℕ) : Type 0 where
  table : (free : List ℕ) × (held : List ℕ) × IsTable u free held
  gone : (entry u s).valid ≡ false
  kept : (j : ℕ) → s ≢ j → entry u j ≡ entry t j

cleared-IsWithout :
    (w : World) {free held : List ℕ} (s : ℕ)
    → IsTable w.table free held
    → (entry w.table s).valid ≡ true
    → IsWithout w.table (cleared w s) s
cleared-IsWithout w {free} {held} s inv used =
    let slot_used = inv.ids.in_use s used in
    let in_range = (Partition-held s inv.slots.parts slot_used).0 in
    let m = record (entry w.table s) { valid = false } in
    let freed = free_slot-IsTable s slot_used (invalidate-IsTable s m in_range refl inv) in
    record {
      table = (s ∷ free, without s held, freed.0);
      gone = freed.1;
      kept = λ j ne.
          freed.2 j ne
          ∙ ground (arith, entry-set w.table s j m (omega (arith, in_range, inv.slots.sized)));
    }

still-Holds :
    {t u : Table} {s : ℕ} (j k : ℕ)
    → IsWithout t u s
    → Holds (entry u j) k
    → (s ≢ j) × Holds (entry t j) k
still-Holds {t} {u} {s} j k rest h = elim (ℕ_discrete s j) [
  | yes e ↦ absurd (ground (arith, rest.gone, h))
  | no ne ↦ (ne, ground (arith, rest.kept j ne, h))
]

-- The search in it.
find-without :
    {t u : Table} {free held : List ℕ} (s id k : ℕ)
    → IsTable t free held
    → Holds (entry t s) id
    → IsWithout t u s
    → find_slot_by_id u k ≡ (if id == k then minus_one else find_slot_by_id t k)
find-without {t} {u} s id k inv holds rest = elim (find_slot_by_id_lem t k inv.slots.sized) [
  | inl (e, unheld) ↦
      find_slot_by_id-missing u k sized (λ j h. unheld j (still-Holds j k rest h).1)
      ∙ ground (arith, e)
  | inr (j, e, lt, h) ↦ elim (ℕ_discrete id k) [
    | yes same ↦
        find_slot_by_id-missing u k sized (λ i h'. (still-Holds i k rest h').0 (
          inv.ids.unique s i holds.0 (still-Holds i k rest h').1.0
            (holds.1 ∙ same ∙ sym (still-Holds i k rest h').1.1)))
        ∙ ground (arith, same)
    | no other ↦
        IsTable-find j k rest.table.2 (
          ground (
            arith,
            rest.kept j (λ at. other (sym holds.1 ∙ ap (λ i. (entry t i).buffer_id) at ∙ h.1)),
            h,
          ))
        ∙ ground (arith, e, other)
  ]
]
  where
    sized : IsSized u
    sized = rest.table.2.slots.sized

-- What the owners of other buffers see.
count-without :
    (w u : World) {free held : List ℕ} (s id k : ℕ)
    → IsTable w.table free held
    → Holds (entry w.table s) id
    → IsWithout w.table u.table s
    → id ≢ k
    → get_ref_count u k ≡ get_ref_count w k
unfolding get_ref_count
count-without w u s id k inv holds rest other = elim (at_buffer-cases w k inv.slots.sized) [
  | inl e ↦ ground (arith, e, find-without s id k inv holds rest)
  | inr (j, e, lt, h) ↦ ground (
    arith,
    e,
    find-without s id k inv holds rest,
    rest.kept j (λ at. other (sym holds.1 ∙ ap (λ i. (entry w.table i).buffer_id) at ∙ h.1)),
  )
]

live-without :
    (w u : World) {free held : List ℕ} (s id k : ℕ)
    → IsTable w.table free held
    → Holds (entry w.table s) id
    → IsWithout w.table u.table s
    → is_live u k ≡ (is_live w k && not (id == k))
unfolding is_live
live-without w u s id k inv holds rest = ground (arith, find-without s id k inv holds rest)

-- On a well-formed table, for an id with no references left, `deallocate` makes that id, and no
-- other, dead; the counts of other ids stay, and the table stays well-formed.
pub deallocate-Reclaims :
    (w : World) (id k : ℕ)
    → Good w
    → get_ref_count w id ≡ 0
    → (is_live (deallocate w id) k ≡ (is_live w k && not (id == k)))
      × (id ≢ k → get_ref_count (deallocate w id) k ≡ get_ref_count w k)
      × Good (deallocate w id)
deallocate-Reclaims w id k (free, held, inv) zero_refs =
    elim (at_buffer-cases w id inv.slots.sized) [
      | inl e ↦ rw (absent e) (not_live e, λ _. refl, (free, held, inv))
      | inr (s, e, lt, h) ↦
          let rest =
            subst (λ t. IsWithout w.table t s) (sym (recycled s e))
              (cleared-IsWithout w s inv h.0) in
          (
            live-without w (deallocate w id) s id k inv h rest,
            count-without w (deallocate w id) s id k inv h rest,
            rest.table,
          )
    ]
  where
    absent : find_slot_by_id w.table id ≡ minus_one → deallocate w id ≡ w
    absent e = unfold deallocate in ground (arith, e)

    not_live : find_slot_by_id w.table id ≡ minus_one → is_live w k ≡ (is_live w k && not (id == k))
    not_live e = unfold is_live in ground (arith, e)

    recycles : (s : ℕ) → find_slot_by_id w.table id ≡ pos s → deallocate w id ≡ recycle w s
    recycles s e = unfold deallocate get_ref_count in ground (arith, e, zero_refs)

    recycled : (s : ℕ) → find_slot_by_id w.table id ≡ pos s → (deallocate w id).table ≡ cleared w s
    recycled s e = ap (λ v. v.table) (recycles s e) ∙ recycle-table w s

-- Opening a pool on demand does not touch the table.
pub get_buffer_data-table :
    (open_shm : Name → Option ℕ) (w : World) (id : ℕ)
    → (get_buffer_data open_shm w id).0.table ≡ w.table
unfolding get_buffer_data ensure_pool auto_register_pool register_pool
get_buffer_data-table open_shm w id = ground arith

-- The counting methods keep the table in order.
pub add_ref-Good : (w : World) (id : ℕ) → Good w → Good (add_ref w id).0
unfolding add_ref bump_ref
add_ref-Good w id (free, held, inv) = elim (at_buffer-cases w id inv.slots.sized) [
  | inl e ↦ (free, held, subst (λ t. IsTable t free held) (ground (arith, e)) inv)
  | inr (s, e, lt, h) ↦ (
    free,
    held,
    subst (λ t. IsTable t free held) (ground (arith, e))
        (rewrite-IsTable s (bump_ref (entry w.table s)).0 lt refl refl inv),
  )
]

pub remove_ref-Good : (w : World) (id : ℕ) → Good w → Good (remove_ref w id).0
unfolding remove_ref drop_ref
remove_ref-Good w id (free, held, inv) = elim (at_buffer-cases w id inv.slots.sized) [
  | inl e ↦ (free, held, subst (λ t. IsTable t free held) (ground (arith, e)) inv)
  | inr (s, e, lt, h) ↦ (
    free,
    held,
    subst (λ t. IsTable t free held) (ground (arith, e))
        (rewrite-IsTable s (drop_ref (entry w.table s)).0 lt refl refl inv),
  )
]
