-- ===== src/Block/Queues.antt =====
-- port.hpp: how the ports of blocks come to their queues, and what they read and write there. The
-- queues of a process are known by number; `a` is the state of the allocator, if the queue has one.
use mergeshare.Prelude.{
  ℕ, Bool, true, false, not, ◌&&◌, List, Option, none, some, ◌==◌, if◌then◌else◌, get_or, set,
}
use mergeshare.Refs.{RefCounter}
use mergeshare.PortQueue.{
  Queue, register_consumer, pop, size, empty, is_closed, invalid_consumer_id,
}
use mergeshare.PortQueue.Counted.{unregister_consumer}
use mergeshare.Block.{Port}

abbrev pub Queues : Type 0
Queues = List (Option Queue)

abbrev pub queue_at : Queues → ℕ → Option Queue
queue_at qs n = get_or qs n none

-- `consumer_id_ != INVALID_CONSUMER_ID`
abbrev pub joined : Port → Bool
joined p = not (p.consumer_id == invalid_consumer_id)

module _ (r : RefCounter) where
  -- `InputPort::disconnect`
  unfoldable pub disconnect : Queues → Option r.State → Port → Queues × Option r.State × Port
  disconnect qs a p = elim p.queue [
    | none ↦ (qs, a, record p { connected = false })
    | some n ↦
        let (q, b) = unregister_consumer r (queue_at qs n) a p.consumer_id in
        if joined p
        then (
          set qs n q,
          b,
          record p { queue = none; connected = false; consumer_id = invalid_consumer_id },
        )
        else (qs, a, record p { queue = none; connected = false })
  ]

  -- `InputPort::set_queue`, after the old queue is left
  unfoldable pub join : Queues → Port → Option ℕ → Queues × Port
  join qs p none =
      (qs, record p { queue = none; connected = false; consumer_id = invalid_consumer_id })
  join qs p (some n) =
      let (q, id) = register_consumer (queue_at qs n) in
      (
        set qs n q,
        record p { queue = some n; connected = not (id == invalid_consumer_id); consumer_id = id },
      )

  unfoldable pub set_input_queue :
      Queues → Option r.State → Port → Option ℕ → Queues × Option r.State × Port
  set_input_queue qs a p n =
      let (qs', b, p') = if p.connected then disconnect qs a p else (qs, a, p) in
      let (qs'', p'') = join qs' p' n in (qs'', b, p'')

-- `OutputPort::set_queue`
unfoldable pub set_output_queue : Port → Option ℕ → Port
set_output_queue p none = record p { queue = none; connected = false }
set_output_queue p (some n) = record p { queue = some n; connected = true }

-- What `InputPort::read` takes from the queue, before it makes a handle of it
unfoldable pub read : Queues → Bool → Port → Queues × Option ℕ
read qs allocator p = elim p.queue [
  | none ↦ (qs, none)
  | some n ↦
      let (q, item, notified) = pop (queue_at qs n) p.consumer_id in
      if allocator && joined p then (set qs n q, item) else (qs, none)
]

unfoldable pub has_data : Queues → Port → Bool
has_data qs p = elim p.queue [
  | none ↦ false
  | some n ↦ joined p && not (empty (queue_at qs n) p.consumer_id)
]

unfoldable pub available : Queues → Port → ℕ
available qs p = elim p.queue [
  | none ↦ 0
  | some n ↦ if joined p then size (queue_at qs n) p.consumer_id else 0
]

unfoldable pub can_write : Queues → Port → Bool
can_write qs p = elim p.queue [ none ↦ false | some n ↦ not (is_closed (queue_at qs n)) ]

unfoldable pub consumer_count : Queues → Port → ℕ
consumer_count qs p = elim p.queue [
  | none ↦ 0
  | some n ↦ elim (queue_at qs n) [ none ↦ 0 | some q ↦ q.consumer_count ]
]
