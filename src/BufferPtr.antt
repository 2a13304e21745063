-- ===== src/BufferPtr.antt =====
-- multiqueue-shm/core/include/multiqueue/buffer_ptr.hpp: handles that own one reference to a buffer
-- each. The handles of a process stand in a list, by address; a place with no object holds the null
-- handle.
pub mod Balance
pub mod Calls
use mergeshare.Prelude.{
  ℕ, Bool, true, false, not, ◌&&◌, List, Option, none, some, ◌==◌, if◌then◌else◌, get_or, set, ltb,
}
use mergeshare.Refs.{RefCounter, Reclaimer}
use mergeshare.Meta.{invalid_buffer_id}

-- The members of `BufferPtr`: `allocator_ != nullptr`, and as `address` the `data_`, a segment with an offset.
pub record Handle : Type 0 where
  pub buffer_id : ℕ
  pub allocator : Bool
  pub address : Option (ℕ × ℕ)

-- `BufferPtr()`
abbrev pub null : Handle
null = record { buffer_id = invalid_buffer_id; allocator = false; address = none }

abbrev pub handle : List Handle → ℕ → Handle
handle hs i = get_or hs i null

-- `buffer_id_ != INVALID_BUFFER_ID && allocator_`
abbrev pub attached : Handle → Bool
attached h = not (h.buffer_id == invalid_buffer_id) && h.allocator

abbrev pub has_data : Option (ℕ × ℕ) → Bool
has_data none = false
has_data (some p) = true

unfoldable pub valid : Handle → Bool
valid h = not (h.buffer_id == invalid_buffer_id) && has_data h.address

-- The calls that a program makes on its handles; `reset` and the destructor are `release`.
pub data Call : Type 0 where
  constructs : (i id : ℕ) → Bool → Call
  copies moves : (i j : ℕ) → Call
  assigns_copy assigns_move swaps : (i j : ℕ) → Call
  releases : (i : ℕ) → Call

module _ (d : Reclaimer) where
  open d use {refs, deallocate, get_buffer_data}

  -- Allocator state and handles
  abbrev pub Heap : Type 0
  Heap = refs.State × List Handle

  unfoldable pub ref_count : Heap → ℕ → ℕ
  ref_count (s, hs) i =
      if attached (handle hs i) then refs.get_ref_count s (handle hs i).buffer_id else 0

  -- `release` on the allocator's side; the caller's members become null.
  unfoldable pub drop : refs.State → Handle → refs.State
  drop s h =
      let (t, should_free) = refs.remove_ref s h.buffer_id in
      if attached h then (if should_free then deallocate t h.buffer_id else t) else s

  unfoldable pub release : Heap → ℕ → Heap
  release (s, hs) i = (drop s (handle hs i), set hs i null)

  -- `BufferPtr(buffer_id, allocator)` at place `i`
  unfoldable pub construct : Heap → ℕ → ℕ → Bool → Heap
  construct (s, hs) i id allocator =
      let h : Handle = record { buffer_id = id; allocator = allocator; address = none } in
      if attached h
      then (let (t, p) = get_buffer_data (refs.add_ref s id).0 id in
          (t, set hs i (record h { address = p })))
      else (s, set hs i h)

  -- The copy constructor at place `i`
  unfoldable pub copy : Heap → ℕ → ℕ → Heap
  copy (s, hs) i j =
      let h = handle hs j in (if attached h then (refs.add_ref s h.buffer_id).0 else s, set hs i h)

  unfoldable pub copy_assign : Heap → ℕ → ℕ → Heap
  copy_assign m i j = if i == j then m else copy (release m i) i j

  -- The move constructor at place `i`
  unfoldable pub move : Heap → ℕ → ℕ → Heap
  move (s, hs) i j = (s, set (set hs i (handle hs j)) j null)

  unfoldable pub move_assign : Heap → ℕ → ℕ → Heap
  move_assign m i j = if i == j then m else move (release m i) i j

  unfoldable pub swap : Heap → ℕ → ℕ → Heap
  swap (s, hs) i j = (s, set (set hs i (handle hs j)) j (handle hs i))

  unfoldable pub run : Call → Heap → Heap
  run (constructs i id allocator) m = construct m i id allocator
  run (copies i j) m = copy m i j
  run (moves i j) m = move m i j
  run (assigns_copy i j) m = copy_assign m i j
  run (assigns_move i j) m = move_assign m i j
  run (swaps i j) m = swap m i j
  run (releases i) m = release m i
