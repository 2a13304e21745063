-- ===== src/Block/Buffers.antt =====
-- block.hpp: `allocate_output_buffer`, on the handles of a process (buffer_ptr.hpp) and what the
-- allocator gives it.
use mergeshare.Prelude.{
  ℕ, ◌<◌, ◌≡◌, ◌≢◌, Bool, true, List, Option, if◌then◌else◌, ◌==◌, length, set, not,
}
use mergeshare.Refs.{Reclaimer}
use mergeshare.BufferPtr.{Handle, null, Heap, construct}
use mergeshare.Meta.{invalid_buffer_id}
use mergeshare.Allocator.{allocate, get_ref_count}

module _ (d : Reclaimer) (allocate : d.refs.State → ℕ → d.refs.State × ℕ) where
  open d use {refs, Sound, get_buffer_data}

  -- The handle returned is put at place `i`; the Boolean tells whether the block has an allocator.
  unfoldable pub allocate_output_buffer : Heap d → ℕ → Bool → ℕ → Heap d
  allocate_output_buffer (s, hs) i allocator size =
      let (t, id) = allocate s size in
      if not allocator
      then (s, set hs i null)
      else if id == invalid_buffer_id
      then (t, set hs i null)
      else construct d (t, hs) i id true

  module _ (s : refs.State) (hs : List Handle) (i size : ℕ) (lt : i < length hs)
      (real : (allocate s size).1 ≢ invalid_buffer_id) (sound : Sound (allocate s size).0)
      (fresh : refs.live (allocate s size).0 (allocate s size).1 ≡ true)
      (once : refs.get_ref_count (allocate s size).0 (allocate s size).1 ≡ 1) where
    abbrev id : ℕ
    id = (allocate s size).1

    abbrev counted : refs.State
    counted = (refs.add_ref (allocate s size).0 id).0

    abbrev returned : refs.State × Option (ℕ × ℕ)
    returned = get_buffer_data counted id

    abbrev owner : Handle
    owner = record { buffer_id = id; allocator = true; address = returned.1 }
