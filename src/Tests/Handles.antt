-- ===== src/Tests/Handles.antt =====
-- Two places for handles, and a buffer that its allocation holds one reference to.
use mergeshare.Prelude.{
  ℕ, zero, suc, ◌≡◌, refl, true, false, arith, List, [], ◌∷◌, ◌==◌, if◌then◌else◌, inl, inr,
  ℕ_discrete, ap, sym, ◌∙◌, some,
}
use mergeshare.FreeList.Partition.{count}
use mergeshare.Meta.{entry}
use mergeshare.Allocator.Counts.{is_live, at_buffer-cases}
use mergeshare.Refs.{allocator_reclaimer}
use mergeshare.BufferPtr.{Handle, null, handle, attached, run, constructs}
use mergeshare.BufferPtr.Balance.{Balanced, handles}
use mergeshare.BufferPtr.Calls.{run-Balanced}
use mergeshare.PortQueue.{formatted, write_item}
use mergeshare.PortQueue.Methods.{joined}
use mergeshare.Block.{Port, PortTable, new_port, input, async}
use mergeshare.Block.Queues.{Queues}
use mergeshare.Block.Inputs.{Rounds}
use mergeshare.Block.Sink.{NullSink, new_null_sink}
use mergeshare.Tests.Buffers.{open_none, filled, buffer, filled_lem, good, live}

abbrev places : List Handle
places = null ∷ null ∷ []

-- The reference that `allocate` counted
abbrev loans : ℕ → ℕ
loans k = if k == buffer then 1 else 0

nothing_attached : (i : ℕ) → attached (handle places i) ≡ false
nothing_attached zero = refl
nothing_attached (suc zero) = refl
nothing_attached (suc (suc i)) = refl

only_buffer : (k : ℕ) → is_live filled k ≡ true → k ≡ buffer
unfolding is_live count
only_buffer k lives = elim (at_buffer-cases filled k filled_lem.1.slots.sized) [
  | inl e ↦ absurd (ground (arith, e))
  | inr (j, e, lt, h) ↦ elim (ℕ_discrete 0 j) [
    | yes at ↦ sym h.1 ∙ ap (λ i. (entry filled.table i).buffer_id) (sym at) ∙ filled_lem.0.holds.1
    | no other ↦ absurd (filled_lem.1.ids.in_use j h.0 (ground arith))
  ]
]

balanced : Balanced (allocator_reclaimer open_none) loans (filled, places)
unfolding handles
balanced = record {
  sound = good;
  alive = λ i on. absurd (ground (arith, nothing_attached i, on));
  counts = λ k lives. ground (arith, only_buffer k lives, filled_lem.0.one_ref);
  bounded = λ k. ground arith;
}

run-Balanced_example :
    Balanced
      (allocator_reclaimer open_none)
      loans
      (run (allocator_reclaimer open_none) (constructs 0 buffer true) (filled, places))
run-Balanced_example =
    run-Balanced (allocator_reclaimer open_none) loans (constructs 0 buffer true) (filled, places)
      (omega arith, refl, live) balanced

-- An input port that is consumer 0 of a queue in which the buffer is
abbrev reader : Port
reader =
    record (new_port input 1
      (record { name = 97 ∷ []; port_type = input; sync_mode = async; queue_capacity = 2 })) {
        queue = some 0;
        connected = true;
        consumer_id = 0;
      }

abbrev table : PortTable
table = record { ports = reader ∷ []; port_map = [] }

abbrev queues : Queues
queues = some (write_item (joined (formatted 7 2) 0) 1) ∷ []

-- A sink on that port, whose wait finds the queue at once
abbrev null_sink : NullSink
null_sink = let k = new_null_sink 2 in record k { block = record k.block { inputs = table } }

abbrev rounds : Rounds
rounds = (some (write_item (joined (formatted 7 2) 0) 1), false) ∷ []
