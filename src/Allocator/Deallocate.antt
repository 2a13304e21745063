-- ===== src/Allocator/Deallocate.antt =====
-- `deallocate`: nothing while references are left; else slot and block go back to their free lists.
use mergeshare.Prelude.{
  ℕ, ◌+◌, ◌<◌, ◌≡◌, ◌≢◌, refl, subst, true, false, List, ◌∷◌, Option, some, arith, if◌then◌else◌,
  ◌==◌, pos, minus_one, u64_mod, to_i32-pos, ◌^◌,
}
use mergeshare.FreeList.Partition.{
  count, without, without-cons_self, count-cons_self, Partition-held,
}
use mergeshare.Pool.{Pool, link_block}
use mergeshare.Pool.Refine.{Represents, link_block-Represents}
use mergeshare.Meta.{
  drop_ref, invalid_pool_id, Metadata, entry, set_entry, find_slot_by_id, max_buffers,
}
use mergeshare.Meta.Find.{Holds}
use mergeshare.Meta.Slots.{IsTable, free_slot-IsTable, entry-set}
use mergeshare.Meta.Publish.{invalidate-IsTable, rewrite-IsTable, free_slot-find, IsTable-find}
use mergeshare.Allocator.{
  World, segment?, set_segment, set_meta, find_pool, release_block, recycle, deallocate, remove_ref,
  get_ref_count, select_pool, allocate, Name,
}
use mergeshare.Allocator.Allocate.{HasPool, segment?-set, allocate-IsNew}

-- While references are left, or for an id that is not found, `deallocate` changes nothing.
pub deallocate-referenced :
    (w : World) (id : ℕ)
    → ¬ ((get_ref_count w id ≡ 0) × (find_slot_by_id w.table id ≢ minus_one))
    → deallocate w id ≡ w
unfolding deallocate get_ref_count
deallocate-referenced w id h = ground arith

release_block-HasPool :
    {w : World} {pfree pheld : List ℕ} (h b : ℕ) (m : Metadata)
    → find_pool w.pools m.pool_id ≡ some h
    → m.block_index ≡ b
    → count b pheld ≢ 0
    → HasPool w h pfree pheld
    → HasPool (release_block w m) h (b ∷ pfree) (without b pheld)
      × ((release_block w m).table ≡ w.table)
unfolding release_block
release_block-HasPool {w} {pfree} {pheld} h b m mapped at used has =
    rw block (record { pool = q; here = here; represents = represents }, refl)
  where
    q : Pool
    q = link_block has.pool (pos b)

    small : b < 2 ^ 31
    small = omega (arith, has.represents.small, (Partition-held b has.represents.parts used).0)

    block : release_block w m ≡ set_segment w h q
    block = ground (arith, has.here, to_i32-pos b small)

    here : segment? (set_segment w h q).segments h ≡ some q
    here = segment?-set w.segments h has.pool q has.here

    represents : Represents q (b ∷ pfree) (without b pheld)
    represents = link_block-Represents b used has.represents

-- The slot `s` of a buffer with no references left.
recycle-lem :
    {w : World} {free held pfree pheld : List ℕ} (s id h b : ℕ)
    → IsTable w.table free held
    → Holds (entry w.table s) id
    → (entry w.table s).block_index ≡ b
    → find_pool w.pools (entry w.table s).pool_id ≡ some h
    → count b pheld ≢ 0
    → HasPool w h pfree pheld
    → let v = recycle w s in
      IsTable v.table (s ∷ free) (without s held)
      × HasPool v h (b ∷ pfree) (without b pheld)
      × (find_slot_by_id v.table id ≡ minus_one)
unfolding recycle
recycle-lem {w} {free} {held} {pfree} {pheld} s id h b inv holds at mapped used has = (
  rw same (free_slot-IsTable s slot_used off).0,
  record { pool = released.0.pool; here = released.0.here; represents = released.0.represents },
  rw same (free_slot-find s id slot_used off others),
)
  where
    m : Metadata
    m = record (entry w.table s) { valid = false }

    slot_used : count s held ≢ 0
    slot_used = inv.ids.in_use s holds.0

    in_range : s < max_buffers
    in_range = (Partition-held s inv.slots.parts slot_used).0

    off : IsTable (set_entry w.table s m) free held
    off = invalidate-IsTable s m in_range refl inv

    released :
        HasPool (release_block (set_meta w s m) (entry w.table s)) h (b ∷ pfree) (without b pheld)
        × ((release_block (set_meta w s m) (entry w.table s)).table ≡ set_entry w.table s m)
    released =
        release_block-HasPool h b (entry w.table s) mapped at used
          (record { pool = has.pool; here = has.here; represents = has.represents })

    same : (release_block (set_meta w s m) (entry w.table s)).table ≡ set_entry w.table s m
    same = released.1

    others : (j : ℕ) → s ≢ j → ¬ Holds (entry (set_entry w.table s m) j) id
    others j ne h' = ne (
        inv.ids.unique s j holds.0 (ground (arith, written j, h'))
          (ground (arith, written j, h', holds)))
      where
        written :
            (i : ℕ) → entry (set_entry w.table s m) i ≡ (if s == i then m else entry w.table i)
        written i = entry-set w.table s i m (omega (arith, in_range, inv.slots.sized))

-- Where the buffer `id` lives: slot, segment and block.
pub record IsBuffer (w : World) (id s h b : ℕ) : Type 0 where
  pub holds : Holds (entry w.table s) id
  pub block : (entry w.table s).block_index ≡ b
  pub mapped : find_pool w.pools (entry w.table s).pool_id ≡ some h

module _ {w : World} {free held pfree pheld : List ℕ} (s id h b : ℕ) where
  -- Dropping the last reference: `remove_ref` reports it, and `deallocate` then puts slot and block
  -- on top of their free lists; the id is found no more.
  pub last_ref :
      IsTable w.table free held
      → HasPool w h pfree pheld
      → IsBuffer w id s h b
      → count b pheld ≢ 0
      → get_ref_count w id ≡ 1
      → let (v, zeroed) = remove_ref w id in
        let u = deallocate v id in
        (zeroed ≡ true)
        × IsTable u.table (s ∷ free) (without s held)
        × HasPool u h (b ∷ pfree) (without b pheld)
        × (find_slot_by_id u.table id ≡ minus_one)
  last_ref inv has buffer used one = rw (removed, freed) (refl, done.0, done.1, done.2)
    where
      m : Metadata
      m = record (entry w.table s) { ref_count = 0 }

      v : World
      v = set_meta w s m

      found : find_slot_by_id w.table id ≡ pos s
      found = IsTable-find s id inv buffer.holds

      count_one : (entry w.table s).ref_count ≡ 1
      count_one = unfold get_ref_count in ground (arith, found, one)

      in_range : s < max_buffers
      in_range = (Partition-held s inv.slots.parts (inv.ids.in_use s buffer.holds.0)).0

      removed : remove_ref w id ≡ (v, true)
      removed = unfold remove_ref drop_ref in ground (arith, found, count_one)

      inv' : IsTable v.table free held
      inv' = rewrite-IsTable s m in_range refl refl inv

      at_s : entry v.table s ≡ m
      at_s = ground (arith, entry-set w.table s s m (omega (arith, in_range, inv.slots.sized)))

      found' : find_slot_by_id v.table id ≡ pos s
      found' = IsTable-find s id inv' (ground (arith, at_s, buffer.holds))

      freed : deallocate v id ≡ recycle v s
      freed = unfold deallocate in ground (arith, found', at_s)

      done :
          IsTable (recycle v s).table (s ∷ free) (without s held)
          × HasPool (recycle v s) h (b ∷ pfree) (without b pheld)
          × (find_slot_by_id (recycle v s).table id ≡ minus_one)
      done =
          recycle-lem s id h b inv' (ground (arith, at_s, buffer.holds))
            (ground (arith, at_s, buffer.block)) (ground (arith, at_s, buffer.mapped)) used
            (record { pool = has.pool; here = has.here; represents = has.represents })

-- A buffer that is allocated, from an opened pool with a free block and a table with a free slot,
-- and whose only reference is dropped and reported as the last, leaves no trace once `deallocate`
-- has run: the free lists of the table and of the pool are as before, and its id is found no more.
pub allocate-last_ref :
    (open_shm : Name → Option ℕ) (w : World) (pool_id size now h : ℕ)
    {pfree pheld free held : List ℕ} (b s : ℕ)
    → select_pool w.pool_infos size ≡ pool_id
    → pool_id ≢ invalid_pool_id
    → find_pool w.pools pool_id ≡ some h
    → w.table.next_buffer_id + 1 < u64_mod
    → 0 < w.table.next_buffer_id
    → HasPool w h (b ∷ pfree) pheld
    → IsTable w.table (s ∷ free) held
    → let (v, id) = allocate open_shm w size now in
      let (u, zeroed) = remove_ref v id in
      let t = deallocate u id in
      (zeroed ≡ true)
      × IsTable t.table (s ∷ free) held
      × HasPool t h (b ∷ pfree) pheld
      × (find_slot_by_id t.table id ≡ minus_one)
allocate-last_ref open_shm w pool_id size now h {pfree} {pheld} {free} {held} b s sel real mapped
      room some_id has inv =
    let made =
      allocate-IsNew open_shm w pool_id size now h sel real mapped b s room some_id has inv in
    let id = (allocate open_shm w size now).1 in
    let u = deallocate (remove_ref (allocate open_shm w size now).0 id).0 id in
    let gone =
      last_ref s id h b made.1 made.2
        (record {
          holds = made.0.holds;
          block = made.0.placed.1;
          mapped = rw (made.0.same_pools, made.0.placed.0) mapped;
        })
        (count-cons_self b pheld) made.0.one_ref in
    (
      gone.0,
      subst (IsTable u.table (s ∷ free)) (without-cons_self s held) gone.1,
      subst (HasPool u h (b ∷ pfree)) (without-cons_self b pheld) gone.2,
      gone.3,
    )
