-- ===== src/Tests/Buffers.antt =====
-- A fresh table of buffers with one pool, a buffer in it, and handles on that buffer.
use mergeshare.Prelude.{
  ◌∙◌, ℕ, ◌<◌, ◌≡◌, ◌≢◌, ◌⊎◌, refl, true, ◌&&◌, not, Option, none, some, arith, List, [], ◌∷◌, pos,
  minus_one, ◌==◌,
}
use mergeshare.FreeList.Partition.{count, count_from, Partition, Partition-init}
use mergeshare.Meta.{Table, entry, initialize, find_slot_by_id, max_buffers, invalid_pool_id}
use mergeshare.Meta.Find.{Holds, IsSized, find_slot_by_id_lem}
use mergeshare.Meta.Slots.{IsTable, initialize-IsTable}
use mergeshare.Allocator.{
  World, Name, find_pool, select_pool, allocate, get_ref_count, deallocate, remove_ref,
}
use mergeshare.Allocator.Allocate.{IsNew, HasPool, allocate-IsNew}
use mergeshare.Allocator.Deallocate.{allocate-last_ref}
use mergeshare.Allocator.Counts.{is_live, remove_ref_lem}
use mergeshare.Allocator.Reclaim.{Good, deallocate-Reclaims, remove_ref-Good}
use mergeshare.BufferPtr.{Handle, null}
use mergeshare.Tests.Pools.{pool, pool-Represents}

-- Boost opens nothing by name.
abbrev pub open_none : Name → Option ℕ
open_none name = none

-- The pool of the registry, opened as segment 0
abbrev pub world : World
world = record {
  table = initialize;
  pool_infos =
      record { pool_id = 0; block_size = 16; block_count = 2; shm_name = []; active = true } ∷ [];
  segments = pool ∷ [];
  process_id = 1;
  pools = (0, 0) ∷ [];
}

abbrev rest : List ℕ
rest = count_from 4095 1

fresh-IsTable : IsTable world.table (0 ∷ rest) []
unfolding count_from
fresh-IsTable = initialize-IsTable

has_pool : HasPool world 0 (0 ∷ 1 ∷ []) []
has_pool = record { pool = pool; here = refl; represents = pool-Represents }

selected : select_pool world.pool_infos 10 ≡ 0
unfolding select_pool
selected = refl

mapped : find_pool world.pools 0 ≡ some 0
unfolding find_pool
mapped = refl

real_pool : 0 ≢ invalid_pool_id
real_pool = omega arith

next_is_1 : world.table.next_buffer_id ≡ 1
unfolding initialize
next_is_1 = refl

-- A buffer of 10 bytes
abbrev pub filled : World
filled = (allocate open_none world 10 7).0

abbrev pub buffer : ℕ
buffer = (allocate open_none world 10 7).1

pub filled_lem :
    IsNew world filled 0 buffer 0 10 0 7
    × IsTable filled.table rest (0 ∷ [])
    × HasPool filled 0 (1 ∷ []) (0 ∷ [])
filled_lem =
    allocate-IsNew open_none world 0 10 7 0 selected real_pool mapped 0 0 (omega (arith, next_is_1))
      (omega (arith, next_is_1)) has_pool fresh-IsTable

allocate-IsNew_example :
    IsNew world filled 0 buffer 0 10 0 7
    × IsTable filled.table rest (0 ∷ [])
    × HasPool filled 0 (1 ∷ []) (0 ∷ [])
allocate-IsNew_example =
    allocate-IsNew open_none world 0 10 7 0 selected real_pool mapped 0 0 (omega (arith, next_is_1))
      (omega (arith, next_is_1)) has_pool fresh-IsTable

allocate-last_ref_example :
    let (u, zeroed) = remove_ref filled buffer in
    let t = deallocate u buffer in
    (zeroed ≡ true)
    × IsTable t.table (0 ∷ rest) []
    × HasPool t 0 (0 ∷ 1 ∷ []) []
    × (find_slot_by_id t.table buffer ≡ minus_one)
allocate-last_ref_example =
    allocate-last_ref open_none world 0 10 7 0 0 0 selected real_pool mapped
      (omega (arith, next_is_1)) (omega (arith, next_is_1)) has_pool fresh-IsTable

pub buffer_is_1 : buffer ≡ 1
buffer_is_1 = filled_lem.0.id_next ∙ next_is_1

pub sized : IsSized filled.table
sized = filled_lem.1.slots.sized

-- A table with no free slot, and no valid one
abbrev full_table : Table
full_table = record initialize { free_head = minus_one; allocated_count = 4096 }

all_slots : Partition max_buffers [] (count_from max_buffers 0)
unfolding count
all_slots = record {
  once = λ b. omega (arith, (Partition-init max_buffers).once b);
  total = omega (arith, (Partition-init max_buffers).total);
}

full-IsTable : IsTable full_table [] (count_from max_buffers 0)
unfolding initialize count
full-IsTable = record {
  slots = record {
    chain = refl;
    parts = all_slots;
    counted = omega (arith, all_slots.total);
    sized = initialize-IsTable.slots.sized;
    links = initialize-IsTable.slots.links;
  };
  ids = record {
    in_use = λ i v. absurd (initialize-IsTable.ids.in_use i v refl);
    known = λ i v. absurd (initialize-IsTable.ids.in_use i v refl);
    unique = λ i j v v' e. absurd (initialize-IsTable.ids.in_use i v refl);
  };
}

abbrev crowded : World
crowded = record world { table = full_table }

find_slot_by_id_lem_example :
    ((find_slot_by_id filled.table 3 ≡ minus_one) × ((j : ℕ) → ¬ Holds (entry filled.table j) 3))
    ⊎ ((j : ℕ) × (find_slot_by_id filled.table 3 ≡ pos j)
        × (j < max_buffers)
        × Holds (entry filled.table j) 3)
find_slot_by_id_lem_example = find_slot_by_id_lem filled.table 3 sized

used : count 0 (0 ∷ []) ≢ 0
unfolding count
used = omega arith

pub live : is_live filled buffer ≡ true
unfolding is_live
live = ground (arith, filled_lem.0.found)

pub good : Good filled
good = (rest, 0 ∷ [], filled_lem.1)

abbrev dropped : World
dropped = (remove_ref filled buffer).0

zero_refs : get_ref_count dropped buffer ≡ 0
zero_refs =
    ground (arith, (remove_ref_lem filled buffer buffer sized).1, filled_lem.0.one_ref, live)

deallocate-Reclaims_example :
    (is_live (deallocate dropped buffer) buffer
      ≡ (is_live dropped buffer && not (buffer == buffer)))
    × (buffer ≢ buffer
        → get_ref_count (deallocate dropped buffer) buffer ≡ get_ref_count dropped buffer)
    × Good (deallocate dropped buffer)
deallocate-Reclaims_example =
    deallocate-Reclaims dropped buffer buffer (remove_ref-Good filled buffer good) zero_refs

-- The block's only handle on a new buffer of 10 bytes
abbrev no_handles : List Handle
no_handles = null ∷ []
