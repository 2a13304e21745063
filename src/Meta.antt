-- ===== src/Meta.antt =====
-- multiqueue-shm/core/include/multiqueue/buffer_metadata.hpp: the table of buffer metadata with
-- its reference counts, slot free list and buffer ids. Calls under `table_mutex` are one step.
pub mod Find
pub mod Slots
pub mod Publish
use mergeshare.Prelude.{
  ℕ, zero, suc, ◌+◌, ◌-◌, ◌^◌, Bool, true, false, ◌&&◌, ◌||◌, List, [], ◌∷◌, ◌==◌, if◌then◌else◌,
  get_or, set, replicate, ℤ, pos, minus_one, is_negative, to_i32, add32, sub32, add64,
}
use mergeshare.FreeList.{link_from}
use mergeshare.Pool.{index, ge_i32}
use mergeshare.Timestamp.{Timestamp, TimeRange, epoch, no_range}

-- MAX_BUFFERS, INVALID_BUFFER_ID, INVALID_POOL_ID, INVALID_PROCESS_ID
abbrev pub max_buffers : ℕ
max_buffers = 4096

abbrev pub invalid_buffer_id : ℕ
invalid_buffer_id = 0

abbrev pub invalid_pool_id : ℕ
invalid_pool_id = 2 ^ 32 - 1

abbrev pub invalid_process_id : ℕ
invalid_process_id = 0

-- `BufferMetadata`
pub record Metadata : Type 0 where
  pub buffer_id : ℕ
  pub pool_id : ℕ
  pub block_index : ℕ
  pub size : ℕ
  pub ref_count : ℕ
  pub data_shm_offset : ℕ
  pub timestamp : Timestamp
  pub time_range : TimeRange
  pub has_time_range : Bool
  pub valid : Bool
  pub creator_process : ℕ
  pub alloc_time_ns : ℕ

-- `BufferMetadata()`
abbrev pub blank : Metadata
blank = record {
  buffer_id = invalid_buffer_id;
  pool_id = invalid_pool_id;
  block_index = 0;
  size = 0;
  ref_count = 0;
  data_shm_offset = 0;
  timestamp = epoch;
  time_range = no_range;
  has_time_range = false;
  valid = false;
  creator_process = invalid_process_id;
  alloc_time_ns = 0;
}

-- `BufferMetadata::add_ref` and `remove_ref`: the new state and the count that they return
unfoldable pub bump_ref : Metadata → Metadata × ℕ
bump_ref m = (record m { ref_count = add32 m.ref_count 1 }, add32 m.ref_count 1)

unfoldable pub drop_ref : Metadata → Metadata × ℕ
drop_ref m = (record m { ref_count = sub32 m.ref_count 1 }, sub32 m.ref_count 1)

-- `BufferMetadataTable`
pub record Table : Type 0 where
  pub allocated_count : ℕ
  pub next_buffer_id : ℕ
  pub entries : List Metadata
  pub free_head : ℤ
  pub next_free : List ℤ

abbrev pub entry : Table → ℕ → Metadata
entry t i = get_or t.entries i blank

abbrev pub set_entry : Table → ℕ → Metadata → Table
set_entry t i m = record t { entries = set t.entries i m }

unfoldable pub initialize : Table
initialize = record {
  allocated_count = 0;
  next_buffer_id = 1;
  entries = replicate max_buffers blank;
  free_head = pos 0;
  next_free = link_from max_buffers max_buffers 0;
}

unfoldable pub allocate_slot : Table → ℤ × Table
allocate_slot t = if is_negative t.free_head then (minus_one, t) else (
  t.free_head,
  record t {
    free_head = get_or t.next_free (index t.free_head) minus_one;
    next_buffer_id = add64 t.next_buffer_id 1;
    entries = set t.entries (index t.free_head) (record (entry t (index t.free_head)) {
      buffer_id = t.next_buffer_id;
      ref_count = 0;
      valid = false;
    });
    allocated_count = add32 t.allocated_count 1;
  },
)

unfoldable pub free_slot : Table → ℤ → Table
free_slot t slot = if is_negative slot || ge_i32 slot (to_i32 max_buffers) then t else record t {
  entries =
      set t.entries (index slot)
        (record (entry t (index slot)) { valid = false; buffer_id = invalid_buffer_id });
  next_free = set t.next_free (index slot) t.free_head;
  free_head = slot;
  allocated_count = sub32 t.allocated_count 1;
}

-- The loop of `find_slot_by_id` from slot `i` on.
unfoldable pub find_from : ℕ → ℕ → List Metadata → ℤ
find_from id i [] = minus_one
find_from id i (m ∷ ms) =
    if m.valid && (m.buffer_id == id) then to_i32 i else find_from id (i + 1) ms

unfoldable pub find_slot_by_id : Table → ℕ → ℤ
find_slot_by_id t id = find_from id 0 t.entries
