-- ===== src/Allocator.antt =====
-- multiqueue-shm/core/include/multiqueue/buffer_allocator.hpp: `SharedBufferAllocator`, one
-- process's view of the shared pools and of the buffer metadata table.
pub mod Counts
pub mod Allocate
pub mod Deallocate
pub mod Reclaim
use mergeshare.Prelude.{
  ℕ, zero, suc, ◌+◌, Bool, true, false, ◌&&◌, not, List, [], ◌∷◌, Option, none, some, ltb, leb,
  ◌==◌, if◌then◌else◌, get_or, set, ℤ, pos, minus_one, is_negative, to_i32,
}
use mergeshare.Pool.{
  Pool, Opened, failed, spinning, opened, open_pool, unlink_head, link_block, get_block_offset,
  get_block_data, index,
}
use mergeshare.Timestamp.{Timestamp, TimeRange, epoch}
use mergeshare.Meta.{
  Metadata, blank, Table, entry, set_entry, allocate_slot, free_slot, find_slot_by_id, bump_ref,
  drop_ref, invalid_buffer_id, invalid_pool_id,
}

-- `char shm_name[64]`, up to its end
abbrev pub Name : Type 0
Name = List ℕ

-- `BufferPoolInfo` (global_registry.hpp)
pub record PoolInfo : Type 0 where
  pub pool_id : ℕ
  pub block_size : ℕ
  pub block_count : ℕ
  pub shm_name : Name
  pub active : Bool

-- `BufferPoolInfo()`
abbrev pub no_pool : PoolInfo
no_pool = record {
  pool_id = invalid_pool_id;
  block_size = 0;
  block_count = 0;
  shm_name = [];
  active = false;
}

abbrev pub max_buffer_pools : ℕ
max_buffer_pools = 8

-- Shared: the metadata table, the pool registry and the pool segments that `create` has made.
-- The process's own: its id and the map `pools_` from pool ids to opened segments.
pub record World : Type 0 where
  pub table : Table
  pub pool_infos : List PoolInfo
  pub segments : List Pool
  pub process_id : ℕ
  pub pools : List (ℕ × ℕ)

abbrev pub segment? : List Pool → ℕ → Option Pool
segment? [] h = none
segment? (p ∷ ps) zero = some p
segment? (p ∷ ps) (suc h) = segment? ps h

-- `pools_.find(pool_id)`
unfoldable pub find_pool : List (ℕ × ℕ) → ℕ → Option ℕ
find_pool [] pool_id = none
find_pool ((k, h) ∷ m) pool_id = if k == pool_id then some h else find_pool m pool_id

abbrev pub set_segment : World → ℕ → Pool → World
set_segment w h p = record w { segments = set w.segments h p }

-- The loop of `select_pool`: the first active pool with blocks that are large enough.
unfoldable pub select_pool : List PoolInfo → ℕ → ℕ
select_pool [] size = invalid_pool_id
select_pool (i ∷ is) size =
    if i.active && leb size i.block_size then i.pool_id else select_pool is size

-- A method that looks its slot up first: `missing` without one, else `f` at the entry's slot.
abbrev pub at_buffer {ℓ} : {A : Type ℓ} → World → ℕ → A → (ℕ → A) → A
at_buffer w id missing f =
    let slot = find_slot_by_id w.table id in if is_negative slot then missing else f (index slot)

abbrev pub set_meta : World → ℕ → Metadata → World
set_meta w i m = record w { table = set_entry w.table i m }

unfoldable pub add_ref : World → ℕ → World × Bool
add_ref w id = at_buffer w id (w, false) λ i. (set_meta w i (bump_ref (entry w.table i)).0, true)

unfoldable pub remove_ref : World → ℕ → World × Bool
remove_ref w id =
    at_buffer w id (w, false)
      λ i. let (m, new_ref) = drop_ref (entry w.table i) in (set_meta w i m, new_ref == 0)

unfoldable pub get_buffer_size : World → ℕ → ℕ
get_buffer_size w id = at_buffer w id 0 λ i. (entry w.table i).size

unfoldable pub get_ref_count : World → ℕ → ℕ
get_ref_count w id = at_buffer w id 0 λ i. (entry w.table i).ref_count

unfoldable pub set_timestamp : World → ℕ → Timestamp → World
set_timestamp w id ts =
    at_buffer w id w λ i. set_meta w i (record (entry w.table i) { timestamp = ts })

unfoldable pub get_timestamp : World → ℕ → Timestamp
get_timestamp w id = at_buffer w id epoch λ i. (entry w.table i).timestamp

unfoldable pub set_time_range : World → ℕ → TimeRange → World
set_time_range w id range =
    at_buffer w id w
      λ i. set_meta w i (record (entry w.table i) { time_range = range; has_time_range = true })

-- Step 5 of `allocate`, at slot `i`, with the time that `Timestamp::now` gives.
unfoldable pub fill_meta : World → ℕ → ℕ → ℕ → Pool → ℤ → ℕ → Metadata
fill_meta w pool_id size i p b now = record (entry w.table i) {
  pool_id = pool_id;
  block_index = index b;
  size = size;
  ref_count = 1;
  data_shm_offset = get_block_offset (some p) b;
  creator_process = w.process_id;
  alloc_time_ns = now;
  has_time_range = false;
  valid = true;
}

-- Steps 4 and 5, after the block `b` of the segment `h` was taken.
unfoldable pub attach_meta : World → ℕ → ℕ → ℕ → Pool → ℤ → ℕ → World × ℕ
attach_meta w pool_id size h p b now =
    let (slot, t) = allocate_slot w.table in
    let v = record w { table = t } in
    if is_negative slot then (set_segment v h (link_block p b), invalid_buffer_id) else (
      set_meta v (index slot) (fill_meta v pool_id size (index slot) p b now),
      (entry t (index slot)).buffer_id,
    )

-- Steps 3 to 5 in the segment `h` of the pool.
unfoldable pub allocate_in : World → ℕ → ℕ → ℕ → ℕ → World × ℕ
allocate_in w pool_id size now h = elim (segment? w.segments h) [
  | none ↦ (w, invalid_buffer_id)
  | some p ↦
      let (b, q) = unlink_head p in
      if is_negative b
      then (w, invalid_buffer_id)
      else attach_meta (set_segment w h q) pool_id size h q b now
]

-- `open_shm` is what Boost's `open_only` finds under a name: a segment, by its number, or none.
module _ (open_shm : Name → Option ℕ) where
  -- `pool->open(shm_name)`: a segment in the list is initialized, so the first load ends the spin.
  unfoldable pub open_segment : World → Name → Option ℕ
  open_segment w name = elim (open_shm name) [
    | none ↦ none
    | some h ↦ elim (open_pool (segment? w.segments h) (true ∷ [])) [ opened p ↦ some h | _ ↦ none ]
  ]

  -- `none` is `false`; otherwise the map has the pool.
  unfoldable pub register_pool : World → ℕ → Name → Option World
  register_pool w pool_id name = elim (find_pool w.pools pool_id) [
    | some h ↦ some w
    | none ↦ elim (open_segment w name) [
      | none ↦ none
      | some h ↦ some (record w { pools = (pool_id, h) ∷ w.pools })
    ]
  ]

  unfoldable pub auto_register_pool : World → ℕ → Option World
  auto_register_pool w pool_id =
      if leb max_buffer_pools pool_id
      then none
      else let info = get_or w.pool_infos pool_id no_pool in
        if not info.active then none else register_pool w pool_id info.shm_name

  -- Steps 2 of `allocate` and of `get_buffer_data`: the segment of the pool, registered if need be.
  unfoldable pub ensure_pool : World → ℕ → Option (World × ℕ)
  ensure_pool w pool_id = elim (find_pool w.pools pool_id) [
    | some h ↦ some (w, h)
    | none ↦ elim (auto_register_pool w pool_id) [
      | none ↦ none
      | some v ↦ elim (find_pool v.pools pool_id) [ none ↦ none | some h ↦ some (v, h) ]
    ]
  ]

  unfoldable pub allocate : World → ℕ → ℕ → World × ℕ
  allocate w size now =
      let pool_id = select_pool w.pool_infos size in
      if pool_id == invalid_pool_id then (w, invalid_buffer_id) else elim (ensure_pool w pool_id) [
        | none ↦ (w, invalid_buffer_id)
        | some (v, h) ↦ allocate_in v pool_id size now h
      ]

  -- The pointer as segment and offset; `none` is `nullptr`.
  unfoldable pub get_buffer_data : World → ℕ → World × Option (ℕ × ℕ)
  get_buffer_data w id =
      at_buffer w id (w, none)
        λ i.
          let m = entry w.table i in
          if not m.valid then (w, none) else elim (ensure_pool w m.pool_id) [
            | none ↦ (w, none)
            | some (v, h) ↦ elim (get_block_data (segment? v.segments h) (to_i32 m.block_index)) [
              | none ↦ (v, none)
              | some offset ↦ (v, some (h, offset))
            ]
          ]

-- Step 5 of `deallocate`: the block goes back, if this process has the pool.
unfoldable pub release_block : World → Metadata → World
release_block w m = elim (find_pool w.pools m.pool_id) [
  | none ↦ w
  | some h ↦ elim (segment? w.segments h) [
    | none ↦ w
    | some p ↦ set_segment w h (link_block p (to_i32 m.block_index))
  ]
]

-- Steps 3 to 6 of `deallocate`, at slot `i`.
unfoldable pub recycle : World → ℕ → World
recycle w i =
    let m = entry w.table i in
    let v = release_block (set_meta w i (record m { valid = false })) m in
    record v { table = free_slot v.table (pos i) }

unfoldable pub deallocate : World → ℕ → World
deallocate w id = at_buffer w id w λ i. if ltb 0 (entry w.table i).ref_count then w else recycle w i
