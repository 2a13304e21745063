-- ===== src/Allocator/Allocate.antt =====
-- `allocate`: what it promises when it succeeds, and that it takes nothing when it fails.
use mergeshare.Prelude.{
  ℕ, ◌+◌, ◌<◌, ◌≡◌, ◌≢◌, refl, subst, List, [], ◌∷◌, Option, some, arith, pos, minus_one, u64_mod,
  set, zero, suc,
}
use mergeshare.FreeList.Partition.{without-cons_self, count-cons_self, Partition-free}
use mergeshare.Pool.{Pool, unlink_head, link_block}
use mergeshare.Pool.Refine.{Represents, unlink_head-Represents, link_block-Represents, take_top}
use mergeshare.Meta.{
  Metadata, entry, allocate_slot, find_slot_by_id, invalid_buffer_id, invalid_pool_id,
}
use mergeshare.Meta.Find.{Holds}
use mergeshare.Meta.Slots.{IsTable, allocate_slot-IsTable, entry-set}
use mergeshare.Meta.Publish.{publish_new, IsTable-find, allocate_slot-timestamp}
use mergeshare.Allocator.{
  World, segment?, set_segment, set_meta, fill_meta, attach_meta, allocate_in, get_ref_count,
  get_buffer_size, select_pool, find_pool, allocate, ensure_pool, Name,
}

pub segment?-set :
    (ps : List Pool) (h : ℕ) (p q : Pool)
    → segment? ps h ≡ some p
    → segment? (set ps h q) h ≡ some q
segment?-set [] h p q e = cc
segment?-set (x ∷ ps) zero p q e = refl
segment?-set (x ∷ ps) (suc h) p q e = segment?-set ps h p q e

-- The table after `allocate_slot`, and the metadata that goes into its slot `s`.
abbrev after_slot : World → World
after_slot w = record w { table = (allocate_slot w.table).1 }

abbrev filled : World → ℕ → ℕ → ℕ → ℕ → ℕ → Pool → Metadata
filled w s pool_id size b now p = fill_meta (after_slot w) pool_id size s p (pos b) now

attach_meta-eq :
    (w : World) (s pool_id size h b now : ℕ) (p : Pool)
    → (allocate_slot w.table).0 ≡ pos s
    → (entry (allocate_slot w.table).1 s).buffer_id ≡ w.table.next_buffer_id
    → attach_meta w pool_id size h p (pos b) now
      ≡ (set_meta (after_slot w) s (filled w s pool_id size b now p), w.table.next_buffer_id)
unfolding attach_meta
attach_meta-eq w s pool_id size h b now p e i = ground (arith, e, i)

-- What a buffer just allocated looks like: slot `s`, the id that was next, one reference.
pub record IsNew (w v : World) (s id pool_id size b now : ℕ) : Type 0 where
  pub id_next : id ≡ w.table.next_buffer_id
  pub found : find_slot_by_id v.table id ≡ pos s
  pub one_ref : get_ref_count v id ≡ 1
  pub sized : get_buffer_size v id ≡ size
  pub placed : ((entry v.table s).pool_id ≡ pool_id) × ((entry v.table s).block_index ≡ b)
  pub same_pools : v.pools ≡ w.pools
  pub holds : Holds (entry v.table s) id
  pub stale_time : (entry v.table s).timestamp ≡ (entry w.table s).timestamp

attach_meta-IsNew :
    {w : World} {free held : List ℕ} (s pool_id size h b now : ℕ) (p : Pool)
    → w.table.next_buffer_id + 1 < u64_mod
    → 0 < w.table.next_buffer_id
    → IsTable w.table (s ∷ free) held
    → let (v, id) = attach_meta w pool_id size h p (pos b) now in
      IsNew w v s id pool_id size b now
      × IsTable v.table free (s ∷ held)
      × (v.segments ≡ w.segments)
unfolding fill_meta
attach_meta-IsNew {w} {free} {held} s pool_id size h b now p room real inv =
    rw (attach_meta-eq w s pool_id size h b now p slot.0 slot.2) (new, table, refl)
  where
    slot :
        let (r, t) = allocate_slot w.table in
        (r ≡ pos s)
        × IsTable t free (s ∷ held)
        × ((entry t s).buffer_id ≡ w.table.next_buffer_id)
        × ((j : ℕ) → s ≢ j → entry t j ≡ entry w.table j)
    slot = allocate_slot-IsTable s room inv

    m : Metadata
    m = filled w s pool_id size b now p

    v : World
    v = set_meta (after_slot w) s m

    table : IsTable v.table free (s ∷ held)
    table = publish_new s m room real slot.2 inv

    at_s : entry v.table s ≡ m
    at_s = ground (
      arith,
      entry-set (after_slot w).table s s m
          (omega (arith, slot.1.slots.sized, (Partition-free s inv.slots.parts).0)),
    )

    found : find_slot_by_id v.table w.table.next_buffer_id ≡ pos s
    found = IsTable-find s w.table.next_buffer_id table (ground (arith, at_s, slot.2))

    new : IsNew w v s w.table.next_buffer_id pool_id size b now
    new = record {
      id_next = refl;
      found = found;
      one_ref = unfold get_ref_count in ground (arith, found, at_s);
      sized = unfold get_buffer_size in ground (arith, found, at_s);
      placed = ground (arith, at_s);
      same_pools = refl;
      holds = ground (arith, at_s, slot.2);
      stale_time = ground (arith, at_s, allocate_slot-timestamp w.table s);
    }

attach_meta-full :
    (w : World) (pool_id size h b now : ℕ) (p : Pool)
    → w.table.free_head ≡ minus_one
    → attach_meta w pool_id size h p (pos b) now
      ≡ (set_segment w h (link_block p (pos b)), invalid_buffer_id)
unfolding attach_meta allocate_slot
attach_meta-full w pool_id size h b now p e = ground arith

-- The segment `h` holds a pool with these free and held blocks.
pub record HasPool (w : World) (h : ℕ) (free held : List ℕ) : Type 0 where
  pub pool : Pool
  pub here : segment? w.segments h ≡ some pool
  pub represents : Represents pool free held

module _ (w : World) (pool_id size now h : ℕ) where
  allocate_in-eq :
      (p : Pool) (b : ℕ)
      → segment? w.segments h ≡ some p
      → (unlink_head p).0 ≡ pos b
      → allocate_in w pool_id size now h
        ≡ attach_meta
            (set_segment w h (unlink_head p).1)
            pool_id
            size
            h
            (unlink_head p).1
            (pos b)
            now
  unfolding allocate_in
  allocate_in-eq p b e f = ground (arith, e, f)

  -- With a free block and a free slot.
  pub allocate_in-IsNew :
      {pfree pheld free held : List ℕ} (b s : ℕ)
      → w.table.next_buffer_id + 1 < u64_mod
      → 0 < w.table.next_buffer_id
      → HasPool w h (b ∷ pfree) pheld
      → IsTable w.table (s ∷ free) held
      → let (v, id) = allocate_in w pool_id size now h in
        IsNew w v s id pool_id size b now
        × IsTable v.table free (s ∷ held)
        × HasPool v h pfree (b ∷ pheld)
  unfolding take_top
  allocate_in-IsNew {pfree} {pheld} b s room real has inv =
      let taken = unlink_head-Represents (b ∷ pfree) pheld has.represents in
      let q = (unlink_head has.pool).1 in
      let u = set_segment w h q in
      let new = attach_meta-IsNew {w = u} s pool_id size h b now q room real inv in
      rw (allocate_in-eq has.pool b has.here taken.0) (
        record {
          id_next = new.0.id_next;
          found = new.0.found;
          one_ref = new.0.one_ref;
          sized = new.0.sized;
          placed = new.0.placed;
          same_pools = new.0.same_pools;
          holds = new.0.holds;
          stale_time = new.0.stale_time;
        },
        new.1,
        record {
          pool = q;
          here = rw (new.2) (segment?-set w.segments h has.pool q has.here);
          represents = taken.1;
        },
      )

  -- With a free block and no slot: the block goes back where it was.
  pub allocate_in-no_slot :
      {pfree pheld held : List ℕ} (b : ℕ)
      → HasPool w h (b ∷ pfree) pheld
      → IsTable w.table [] held
      → let (v, id) = allocate_in w pool_id size now h in
        (id ≡ invalid_buffer_id) × (v.table ≡ w.table) × HasPool v h (b ∷ pfree) pheld
  unfolding take_top
  allocate_in-no_slot {pfree} {pheld} b has inv =
      let taken = unlink_head-Represents (b ∷ pfree) pheld has.represents in
      let q = (unlink_head has.pool).1 in
      let u = set_segment w h q in
      rw
        (
          allocate_in-eq has.pool b has.here taken.0,
          attach_meta-full u pool_id size h b now q inv.slots.chain,
        )
        (
          refl,
          refl,
          record {
            pool = link_block q (pos b);
            here =
                segment?-set u.segments h q (link_block q (pos b))
                  (segment?-set w.segments h has.pool q has.here);
            represents =
                subst (Represents (link_block q (pos b)) (b ∷ pfree)) (without-cons_self b pheld)
                  (link_block-Represents b (count-cons_self b pheld) taken.1);
          },
        )

  -- With no block nothing changes.
  pub allocate_in-no_block :
      {pheld : List ℕ}
      → HasPool w h [] pheld
      → allocate_in w pool_id size now h ≡ (w, invalid_buffer_id)
  unfolding allocate_in take_top
  allocate_in-no_block {pheld} has =
      ground (arith, has.here, unlink_head-Represents [] pheld has.represents)

-- `allocate` for a size that the pool `pool_id` is selected for, where this process has opened the
-- pool's segment `h`.
module _ (open_shm : Name → Option ℕ) (w : World) (pool_id size now h : ℕ)
    (selected : select_pool w.pool_infos size ≡ pool_id) (real_pool : pool_id ≢ invalid_pool_id)
    (mapped : find_pool w.pools pool_id ≡ some h) where
  allocate-eq : allocate open_shm w size now ≡ allocate_in w pool_id size now h
  unfolding allocate ensure_pool
  allocate-eq = ground arith

  -- For a size that an opened pool is selected for, with a free block there, a free slot in a
  -- well-formed table, and no wrap of the next id, `allocate` returns the next id; the search
  -- finds it, in the slot that headed the free list, with one reference and the size asked for,
  -- but with the timestamp that the slot had before; block and slot leave their free lists, and
  -- nothing else of those lists changes.
  pub allocate-IsNew :
      {pfree pheld free held : List ℕ} (b s : ℕ)
      → w.table.next_buffer_id + 1 < u64_mod
      → 0 < w.table.next_buffer_id
      → HasPool w h (b ∷ pfree) pheld
      → IsTable w.table (s ∷ free) held
      → let (v, id) = allocate open_shm w size now in
        IsNew w v s id pool_id size b now
        × IsTable v.table free (s ∷ held)
        × HasPool v h pfree (b ∷ pheld)
  allocate-IsNew b s room real has inv =
      rw allocate-eq (allocate_in-IsNew w pool_id size now h b s room real has inv)

  -- For a size that an opened pool with a free block is selected for, but a table with no free
  -- slot, `allocate` fails and puts the block that it took back on top of the pool's free list:
  -- table and free list are as before.
  pub allocate-no_slot :
      {pfree pheld held : List ℕ} (b : ℕ)
      → HasPool w h (b ∷ pfree) pheld
      → IsTable w.table [] held
      → let (v, id) = allocate open_shm w size now in
        (id ≡ invalid_buffer_id) × (v.table ≡ w.table) × HasPool v h (b ∷ pfree) pheld
  allocate-no_slot b has inv = rw allocate-eq (allocate_in-no_slot w pool_id size now h b has inv)
