-- ===== src/Meta/Publish.antt =====
-- Making the metadata of a reserved slot valid.
use mergeshare.Prelude.{
  ℕ, ◌+◌, ◌<◌, ◌≡◌, ◌≢◌, List, ◌∷◌, true, arith, u64_mod, add64, pos, ◌∙◌, sym, get_or-set, false,
  minus_one, ℕ_discrete,
}
use mergeshare.FreeList.Partition.{count, Partition-free}
use mergeshare.Meta.{
  Metadata, Table, entry, set_entry, allocate_slot, free_slot, max_buffers, find_slot_by_id, blank,
}
use mergeshare.Pool.{index}
use mergeshare.Meta.Find.{Holds, find_slot_by_id_unique, find_slot_by_id-missing}
use mergeshare.Meta.Slots.{
  IsTable, allocate_slot-IsTable, free_slot-IsTable, IdsUnique-write, set_entry-SlotsFree,
  entry-set,
}

-- A held slot may be given a real id that no other slot holds.
pub publish-IsTable :
    {t : Table} {free held : List ℕ} (s : ℕ) (m : Metadata)
    → count s held ≢ 0
    → s < max_buffers
    → (0 < m.buffer_id) × (m.buffer_id < t.next_buffer_id)
    → ((j : ℕ) → s ≢ j → (entry t j).valid ≡ true → (entry t j).buffer_id ≢ m.buffer_id)
    → IsTable t free held
    → IsTable (set_entry t s m) free held
publish-IsTable {t} s m used lt real fresh p = record {
  slots = set_entry-SlotsFree s m p.slots;
  ids =
      IdsUnique-write s m p.ids (λ i. entry-set t s i m (omega (arith, p.slots.sized)))
        (omega arith) (λ i ne h. h) (λ v. used) (λ v. real) (λ j v. fresh j);
}

next_id :
    (t : Table) (s : ℕ)
    → (allocate_slot t).0 ≡ pos s
    → (allocate_slot t).1.next_buffer_id ≡ add64 t.next_buffer_id 1
unfolding allocate_slot
next_id t s e = ground arith

-- A slot just reserved, filled in under its new id.
pub publish_new :
    {t : Table} {free held : List ℕ} (s : ℕ) (m : Metadata)
    → t.next_buffer_id + 1 < u64_mod
    → 0 < t.next_buffer_id
    → m.buffer_id ≡ t.next_buffer_id
    → IsTable t (s ∷ free) held
    → IsTable (set_entry (allocate_slot t).1 s m) free (s ∷ held)
unfolding count
publish_new {t} {held} s m room real named inv =
    let slot = allocate_slot-IsTable s room inv in
    publish-IsTable s m (ground arith) (Partition-free s inv.slots.parts).0
      (omega (arith, named, next_id t s slot.0))
      (λ j ne v e. ground (arith, slot.3 j ne, inv.ids.known j)) slot.1

-- In a well-formed table an id is found in the slot that holds it.
pub IsTable-find :
    {t : Table} {free held : List ℕ} (s id : ℕ)
    → IsTable t free held
    → Holds (entry t s) id
    → find_slot_by_id t id ≡ pos s
IsTable-find {t} s id inv h =
    find_slot_by_id_unique t id s inv.slots.sized h
      λ j k. inv.ids.unique j s k.0 h.0 (k.1 ∙ sym h.1)

-- `allocate_slot` leaves the timestamp of the slot's last buffer in place.
pub allocate_slot-timestamp :
    (t : Table) (s : ℕ) → (entry (allocate_slot t).1 s).timestamp ≡ (entry t s).timestamp
unfolding allocate_slot
allocate_slot-timestamp t s = ground (
  arith,
  get_or-set t.entries (index t.free_head) s
      (record (entry t (index t.free_head)) {
        buffer_id = t.next_buffer_id;
        ref_count = 0;
        valid = false;
      })
      blank,
)

-- A write that makes a slot invalid, or keeps its validity and id.
pub invalidate-IsTable :
    {t : Table} {free held : List ℕ} (s : ℕ) (m : Metadata)
    → s < max_buffers
    → m.valid ≡ false
    → IsTable t free held
    → IsTable (set_entry t s m) free held
invalidate-IsTable {t} s m lt off p = record {
  slots = set_entry-SlotsFree s m p.slots;
  ids =
      IdsUnique-write s m p.ids (λ i. entry-set t s i m (omega (arith, p.slots.sized)))
        (omega arith) (λ i ne h. h) (λ v. cc) (λ v. cc) (λ j v. cc);
}

pub rewrite-IsTable :
    {t : Table} {free held : List ℕ} (s : ℕ) (m : Metadata)
    → s < max_buffers
    → m.valid ≡ (entry t s).valid
    → m.buffer_id ≡ (entry t s).buffer_id
    → IsTable t free held
    → IsTable (set_entry t s m) free held
rewrite-IsTable {t} s m lt v e p = record {
  slots = set_entry-SlotsFree s m p.slots;
  ids =
      IdsUnique-write s m p.ids (λ i. entry-set t s i m (omega (arith, p.slots.sized)))
        (omega arith) (λ i ne h. h) (λ k. p.ids.in_use s (sym v ∙ k))
        (λ k. rw e (p.ids.known s (sym v ∙ k)))
        (λ j k ne u same. ne (p.ids.unique s j (sym v ∙ k) u (sym e ∙ sym same)));
}

-- After `free_slot` at a valid slot its id is found no more.
pub free_slot-find :
    {t : Table} {free held : List ℕ} (s id : ℕ)
    → count s held ≢ 0
    → IsTable t free held
    → ((j : ℕ) → s ≢ j → ¬ Holds (entry t j) id)
    → find_slot_by_id (free_slot t (pos s)) id ≡ minus_one
free_slot-find {t} s id used inv others =
    let freed = free_slot-IsTable s used inv in
    find_slot_by_id-missing (free_slot t (pos s)) id freed.0.slots.sized λ j h.
      elim (ℕ_discrete s j) [
        | yes e ↦ ground (arith, freed.1, h)
        | no ne ↦ others j ne (ground (arith, freed.2 j ne, h))
      ]
