-- ===== src/Allocator/Counts.antt =====
-- Reference counts: what `add_ref` and `remove_ref` do to the count of every buffer.
use mergeshare.Prelude.{
  ℕ, ◌<◌, ◌≡◌, refl, Bool, ◌&&◌, not, arith, if◌then◌else◌, ◌==◌, add32, sub32, pos, minus_one,
  is_negative, length-set, get_or-set, inl, inr, ◌⊎◌,
}
use mergeshare.Pool.{index}
use mergeshare.Meta.{Metadata, blank, entry, find_slot_by_id, bump_ref, drop_ref, max_buffers}
use mergeshare.Meta.Find.{Holds, IsSized, find_slot_by_id_lem, find_slot_by_id-set_entry}
use mergeshare.Allocator.{World, set_meta, add_ref, remove_ref, get_ref_count}

-- Some slot holds the id.
unfoldable pub is_live : World → ℕ → Bool
is_live w id = not (is_negative (find_slot_by_id w.table id))

-- The two outcomes of a look-up.
pub at_buffer-cases :
    (w : World) (id : ℕ)
    → IsSized w.table
    → (find_slot_by_id w.table id ≡ minus_one)
      ⊎ ((s : ℕ) × (find_slot_by_id w.table id ≡ pos s)
          × (s < max_buffers)
          × Holds (entry w.table s) id)
at_buffer-cases w id sized = elim (find_slot_by_id_lem w.table id sized) [
  | inl (e, _) ↦ inl e
  | inr found ↦ inr found
]

entry-set_meta :
    (w : World) (s i : ℕ) (m : Metadata)
    → IsSized w.table
    → s < max_buffers
    → entry (set_meta w s m).table i ≡ (if s == i then m else entry w.table i)
entry-set_meta w s i m sized lt = ground (arith, get_or-set w.table.entries s i m blank, sized)

-- Writing a new count into the slot of a live buffer changes that buffer's count alone.
write_count :
    (w : World) (id s c k : ℕ)
    → IsSized w.table
    → find_slot_by_id w.table id ≡ pos s
    → s < max_buffers
    → Holds (entry w.table s) id
    → let v = set_meta w s (record (entry w.table s) { ref_count = c }) in
      get_ref_count v k ≡ (if id == k then c else get_ref_count w k)
unfolding get_ref_count
write_count w id s c k sized e lt h = elim (at_buffer-cases w k sized) [
  | inl e' ↦ ground (arith, same)
  | inr (i, e', lt', h') ↦ ground (arith, same, entry-set_meta w s i m sized lt)
]
  where
    m : Metadata
    m = record (entry w.table s) { ref_count = c }

    same : find_slot_by_id (set_meta w s m).table k ≡ find_slot_by_id w.table k
    same = find_slot_by_id-set_entry w.table k s m refl refl

-- On a table of full size, `add_ref` succeeds exactly for the id of a live buffer, and then counts
-- one more, on 32 bits, for that buffer and for no other; for any other id it changes no count.
pub add_ref_lem :
    (w : World) (id k : ℕ)
    → IsSized w.table
    → let (v, done) = add_ref w id in
      (done ≡ is_live w id)
      × (get_ref_count v k
          ≡ (if is_live w id && (id == k) then add32 (get_ref_count w k) 1 else get_ref_count w k))
unfolding add_ref is_live bump_ref get_ref_count
add_ref_lem w id k sized = elim (at_buffer-cases w id sized) [
  | inl e ↦ ground arith
  | inr (s, e, lt, h) ↦
      ground (arith, write_count w id s (add32 (entry w.table s).ref_count 1) k sized e lt h)
]

-- On a table of full size, `remove_ref` counts one less, on 32 bits, for a live buffer and for no
-- other, and reports true exactly if that buffer's count has come to 0; for any other id it
-- changes no count and reports false.
pub remove_ref_lem :
    (w : World) (id k : ℕ)
    → IsSized w.table
    → let (v, zeroed) = remove_ref w id in
      (zeroed ≡ (is_live w id && (get_ref_count v id == 0)))
      × (get_ref_count v k
          ≡ (if is_live w id && (id == k) then sub32 (get_ref_count w k) 1 else get_ref_count w k))
unfolding remove_ref is_live drop_ref get_ref_count
remove_ref_lem w id k sized = elim (at_buffer-cases w id sized) [
  | inl e ↦ ground arith
  | inr (s, e, lt, h) ↦ ground (
    arith,
    write_count w id s (sub32 (entry w.table s).ref_count 1) k sized e lt h,
    write_count w id s (sub32 (entry w.table s).ref_count 1) id sized e lt h,
  )
]

module _ (w : World) (id k : ℕ) where
  pub is_live-add_ref : is_live (add_ref w id).0 k ≡ is_live w k
  unfolding is_live add_ref bump_ref
  is_live-add_ref = ground (
    arith,
    find_slot_by_id-set_entry w.table k (index (find_slot_by_id w.table id))
        (bump_ref (entry w.table (index (find_slot_by_id w.table id)))).0 refl refl,
  )

  pub is_live-remove_ref : is_live (remove_ref w id).0 k ≡ is_live w k
  unfolding is_live remove_ref drop_ref
  is_live-remove_ref = ground (
    arith,
    find_slot_by_id-set_entry w.table k (index (find_slot_by_id w.table id))
        (drop_ref (entry w.table (index (find_slot_by_id w.table id)))).0 refl refl,
  )

pub add_ref-IsSized : (w : World) (id : ℕ) → IsSized w.table → IsSized (add_ref w id).0.table
unfolding add_ref
add_ref-IsSized w id sized = ground (
  arith,
  length-set w.table.entries (index (find_slot_by_id w.table id))
      (bump_ref (entry w.table (index (find_slot_by_id w.table id)))).0,
)

pub remove_ref-IsSized : (w : World) (id : ℕ) → IsSized w.table → IsSized (remove_ref w id).0.table
unfolding remove_ref
remove_ref-IsSized w id sized = ground (
  arith,
  length-set w.table.entries (index (find_slot_by_id w.table id))
      (drop_ref (entry w.table (index (find_slot_by_id w.table id)))).0,
)
