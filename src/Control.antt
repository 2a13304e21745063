-- ===== src/Control.antt =====
-- multiqueue-shm/core/include/multiqueue/metadata.hpp: what stands in the shared segment of a ring
-- queue before its elements, and each element's header. Each atomic access is one step; `now` is
-- what the clock gives.
pub mod Slots
use mergeshare.Prelude.{
  ℕ, zero, suc, ◌+◌, ◌-◌, ◌/◌, ◌%◌, ◌^◌, Bool, true, false, not, ◌&&◌, ◌||◌, List, [], ◌∷◌, ◌++◌,
  Option, none, some, ltb, ◌==◌, if◌then◌else◌, get_or, set, replicate, add32, sub32, u64_max, ℤ,
  pos, minus_one, is_negative,
}
use mergeshare.Pool.{ge_i32, index}
use mergeshare.Config.{QueueConfig, BlockingMode}

abbrev pub queue_magic_number : ℕ
queue_magic_number = 5571325784033152256

abbrev pub queue_version : ℕ
queue_version = 2 ^ 16

-- `strncpy` into an array of `n + 1` bytes that ends in 0: the text up to its end, cut at `n`.
unfoldable pub copy_text : ℕ → List ℕ → List ℕ
copy_text zero cs = []
copy_text (suc n) [] = []
copy_text (suc n) (c ∷ cs) = if c == 0 then [] else c ∷ copy_text n cs

-- The loop that joins the names by commas (byte 44).
unfoldable pub join_names : List (List ℕ) → List ℕ
join_names [] = []
join_names (n ∷ []) = n
join_names (n ∷ m ∷ ns) = n ++ 44 ∷ join_names (m ∷ ns)

pub record QueueMetadata : Type 0 where
  pub magic_number : ℕ
  pub version : ℕ
  pub checksum : ℕ
  pub element_size : ℕ
  pub capacity : ℕ
  pub has_timestamp : Bool
  pub blocking_mode : BlockingMode
  pub timeout_ms : ℕ
  pub enable_async : Bool
  pub queue_name : List ℕ
  pub extra_queue_names : List ℕ
  pub user_metadata : List ℕ
  pub created_at : ℕ
  pub last_modified_at : ℕ

unfoldable pub initialize_metadata : QueueConfig → ℕ → ℕ → QueueMetadata
initialize_metadata config elem_size now = record {
  magic_number = queue_magic_number;
  version = queue_version;
  checksum = 0;
  element_size = elem_size;
  capacity = config.capacity;
  has_timestamp = config.has_timestamp;
  blocking_mode = config.blocking_mode;
  timeout_ms = config.timeout_ms;
  enable_async = config.enable_async;
  queue_name = copy_text 63 config.queue_name;
  extra_queue_names = copy_text 255 (join_names config.extra_queue_names);
  user_metadata = copy_text 511 config.user_metadata;
  created_at = now;
  last_modified_at = now;
}

unfoldable pub metadata_is_valid : QueueMetadata → Bool
metadata_is_valid m =
    if not (m.magic_number == queue_magic_number)
    then false
    else if not (m.version / 2 ^ 24 % 2 ^ 8 == 0)
    then false
    else if (m.capacity == 0) || (m.element_size == 0)
    then false
    else true

-- The number of `ConsumerSlot`s
abbrev pub max_consumers : ℕ
max_consumers = 32

-- `ConsumerSlot`
pub record Slot : Type 0 where
  pub read_offset : ℕ
  pub active : Bool
  pub consumer_id : List ℕ
  pub last_access_time : ℕ

abbrev pub blank_slot : Slot
blank_slot = record { read_offset = 0; active = false; consumer_id = []; last_access_time = 0 }

unfoldable pub register_slot : Slot → List ℕ → ℕ → ℕ → Option Slot
register_slot s id start_offset now =
    if s.active
    then none
    else some (record s {
      active = true;
      consumer_id = copy_text 31 id;
      read_offset = start_offset;
      last_access_time = now;
    })

unfoldable pub unregister_slot : Slot → Slot
unregister_slot s = record s { active = false; consumer_id = [] }

-- `ConsumerRegistry`
pub record Registry : Type 0 where
  pub slots : List Slot
  pub active_count : ℕ

abbrev pub slot : Registry → ℕ → Slot
slot r i = get_or r.slots i blank_slot

-- The loop of `register_consumer` from slot `i` on: the slot taken and the slots.
unfoldable pub register_from : ℕ → List Slot → List ℕ → ℕ → ℕ → Option (ℕ × List Slot)
register_from i [] id start now = none
register_from i (s ∷ ss) id start now =
    let rest = register_from (i + 1) ss id start now in
    elim (register_slot s id start now) [
      | some t ↦ some (i, t ∷ ss)
      | none ↦ elim rest [ none ↦ none | some (j, ts) ↦ some (j, s ∷ ts) ]
    ]

unfoldable pub register_consumer : Registry → List ℕ → ℕ → ℕ → Registry × ℤ
register_consumer r id start now = elim (register_from 0 r.slots id start now) [
  | none ↦ (r, minus_one)
  | some (i, ts) ↦ (record { slots = ts; active_count = add32 r.active_count 1 }, pos i)
]

unfoldable pub unregister_consumer : Registry → ℤ → Registry
unregister_consumer r slot_id =
    if is_negative slot_id || ge_i32 slot_id (pos max_consumers)
    then r
    else let i = index slot_id in
      if (slot r i).active
      then record {
        slots = set r.slots i (unregister_slot (slot r i));
        active_count = sub32 r.active_count 1;
      }
      else r

-- The loop of `get_slowest_offset`, with the least offset so far.
unfoldable pub slowest_from : List Slot → ℕ → ℕ
slowest_from [] slowest = slowest
slowest_from (s ∷ ss) slowest =
    slowest_from ss (if s.active && ltb s.read_offset slowest then s.read_offset else slowest)

unfoldable pub get_slowest_offset : Registry → ℕ
get_slowest_offset r =
    let slowest = slowest_from r.slots u64_max in if slowest == u64_max then 0 else slowest

pub record ControlBlock : Type 0 where
  pub write_offset : ℕ
  pub consumers : Registry
  pub producer_count : ℕ
  pub total_pushed : ℕ
  pub total_popped : ℕ
  pub overwrite_count : ℕ
  pub status_flags : ℕ
  pub last_write_time : ℕ
  pub last_read_time : ℕ

unfoldable pub initialize_control : ControlBlock
initialize_control = record {
  write_offset = 0;
  consumers = record { slots = replicate max_consumers blank_slot; active_count = 0 };
  producer_count = 0;
  total_pushed = 0;
  total_popped = 0;
  overwrite_count = 0;
  status_flags = 0;
  last_write_time = 0;
  last_read_time = 0;
}

-- `flags | 1` and `flags | 2`
abbrev pub or_1 : ℕ → ℕ
or_1 flags = if flags % 2 == 1 then flags else flags + 1

abbrev pub or_2 : ℕ → ℕ
or_2 flags = if flags / 2 % 2 == 1 then flags else flags + 2

unfoldable pub is_closed : ControlBlock → Bool
is_closed c = c.status_flags % 2 == 1

unfoldable pub close : ControlBlock → ControlBlock
close c = record c { status_flags = or_1 c.status_flags }

-- `ElementHeader`
pub record Header : Type 0 where
  pub timestamp : ℕ
  pub sequence_id : ℕ
  pub data_size : ℕ
  pub flags : ℕ
  pub checksum : ℕ
  pub reserved : ℕ

unfoldable pub initialize_header : ℕ → ℕ → ℕ → Header
initialize_header seq ts size = record {
  timestamp = ts;
  sequence_id = seq;
  data_size = size % 2 ^ 32;
  flags = 0;
  checksum = 0;
  reserved = 0;
}

unfoldable pub mark_valid : Header → Header
mark_valid h = record h { flags = or_1 h.flags }

unfoldable pub is_valid : Header → Bool
is_valid h = h.flags % 2 == 1

unfoldable pub mark_read : Header → Header
mark_read h = record h { flags = or_2 h.flags }

unfoldable pub is_read : Header → Bool
is_read h = h.flags / 2 % 2 == 1

unfoldable pub clear_flags : Header → Header
clear_flags h = record h { flags = 0 }
