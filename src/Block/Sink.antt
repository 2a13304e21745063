-- ===== src/Block/Sink.antt =====
-- multiqueue-shm/core/include/multiqueue/blocks/null_sink.hpp: a block that reads buffers and drops them.
use mergeshare.Prelude.{ℕ, Bool, true, List, [], ◌∷◌, Option, some, if◌then◌else◌, add64}
use mergeshare.Refs.{Reclaimer}
use mergeshare.BufferPtr.{Handle, handle, valid, Heap, release}
use mergeshare.Blocks.{sink}
use mergeshare.Block.{Block, PortConfig, input, async, new_block, add_port}
use mergeshare.Block.Queues.{Queues}
use mergeshare.Block.Inputs.{Rounds, take_input, consume_input}
use mergeshare.Scheduler.{WorkResult, ok, insufficient_input}

pub record NullSink : Type 0 where
  pub block : Block
  pub consumed_count : ℕ

-- `NullSink(allocator)`: its name is "NullSink" and its port is called "in"; `capacity` is the default.
unfoldable pub new_null_sink : ℕ → NullSink
new_null_sink capacity =
    let b = new_block (78 ∷ 117 ∷ 108 ∷ 108 ∷ 83 ∷ 105 ∷ 110 ∷ 107 ∷ []) sink in
    let port : PortConfig = record {
      name = 105 ∷ 110 ∷ [];
      port_type = input;
      sync_mode = async;
      queue_capacity = capacity;
    } in
    record { block = record b { inputs = (add_port input b.inputs port).0 }; consumed_count = 0 }

unfoldable pub initialize_sink : NullSink → NullSink × Bool
initialize_sink k = (record k { consumed_count = 0 }, true)

module _ (d : Reclaimer) where
  -- `work`; the local `buffer` is at place `i`, and `rounds` is what the wait finds.
  unfoldable pub work_sink :
      Queues → Heap d → ℕ → Bool → Rounds → NullSink → WorkResult × NullSink × Queues × Heap d
  work_sink qs m i allocator rounds k =
      let (qs', m') = consume_input d qs m i allocator k.block.inputs 0 (some rounds) in
      let released = release d m' i in
      if valid (handle m'.1 i)
      then (ok, record k { consumed_count = add64 k.consumed_count 1 }, qs', released)
      else (insufficient_input, k, qs', released)

module _ (d : Reclaimer) (loans : ℕ → ℕ) (qs : Queues) (s : d.refs.State) (hs : List Handle) (i : ℕ)
    (allocator : Bool) (rounds : Rounds) (k : NullSink) where
  abbrev taken : Queues × Option ℕ
  taken = take_input qs allocator k.block.inputs 0 (some rounds)

  abbrev got : Queues × Heap d
  got = consume_input d qs (s, hs) i allocator k.block.inputs 0 (some rounds)
