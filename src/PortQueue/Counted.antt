-- ===== src/PortQueue/Counted.antt =====
-- The methods of PortQueue (port_queue.hpp) that count references through `allocator_`.
use mergeshare.Prelude.{
  ℕ, zero, suc, ◌+◌, ◌-◌, ◌%◌, Bool, false, not, ◌||◌, List, [], ◌∷◌, Option, none, some, leb, ◌==◌,
  if◌then◌else◌, get_or, set, sub32,
}
use mergeshare.Refs.{RefCounter}
use mergeshare.PortQueue.{Queue, consumer, max_consumers, invalid_buffer_id, write_item, is_full}

-- How a call of `push` ends, or that it waits still.
pub data Outcome : Type 0 where
  pushed closed_queue timed_out waiting : Outcome

abbrev done {ℓ κ} : {A : Type ℓ} {B : Type κ} → A × B → Outcome × A × B
done (q, a) = (pushed, q, a)

-- The methods that count references. `allocator_` may be null.
module _ (r : RefCounter) where
  open r use {State, add_ref, remove_ref}

  -- `for (i = 1; i < n; ++i) allocator_->add_ref(id)`: `n - 1` rounds
  unfoldable pub add_refs : ℕ → ℕ → State → State
  add_refs zero id a = a
  add_refs (suc n) id a = add_refs n id (add_ref a id).0

  -- The loop of `unregister_consumer` from item `i` on, with `n` rounds left.
  unfoldable pub remove_refs : Queue → ℕ → ℕ → State → State
  remove_refs q zero i a = a
  remove_refs q (suc n) i a =
      let id = get_or q.items (i % q.capacity) invalid_buffer_id in
      remove_refs q n (i + 1) (if id == invalid_buffer_id then a else (remove_ref a id).0)

  unfoldable pub unregister_consumer : Option Queue → Option State → ℕ → Option Queue × Option State
  unregister_consumer none a i = (none, a)
  unregister_consumer (some q) a i =
      let c = consumer q i in
      if leb max_consumers i || not c.active then (some q, a) else (
        some (record q {
          consumers = set q.consumers i (record c { active = false });
          consumer_count = sub32 q.consumer_count 1;
        }),
        elim a [ none ↦ none | some s ↦ some (remove_refs q (q.tail - c.head) c.head s) ],
      )

  -- `push` once there is space.
  unfoldable pub push_item : Queue → Option State → ℕ → Queue × Option State
  push_item q a id = (
    write_item q id,
    elim a [ none ↦ none | some s ↦ some (add_refs (q.consumer_count - 1) id s) ],
  )

  -- The loop of `push`; `wakes` are the states found after each wait.
  unfoldable pub push_loop :
      Queue → Option State → ℕ → List (Queue × Option State) → Outcome × Queue × Option State
  push_loop q a id [] =
      if q.closed
      then (closed_queue, q, a)
      else if is_full q
      then (waiting, q, a)
      else done (push_item q a id)
  push_loop q a id ((q', a') ∷ wakes) =
      let rest = push_loop q' a' id wakes in
      if q.closed then (closed_queue, q, a) else if is_full q then rest else done (push_item q a id)

  -- The test before the lock is the loop's first one.
  unfoldable pub push :
      Option Queue
      → Option State
      → ℕ
      → List (Queue × Option State)
      → Outcome × Option Queue × Option State
  push none a id wakes = (closed_queue, none, a)
  push (some q) a id wakes =
      if q.closed
      then (closed_queue, some q, a)
      else let (o, q', a') = push_loop q a id wakes in (o, some q', a')

  -- `push_with_timeout` once there is space: one reference, whatever the number of consumers.
  unfoldable pub push_item_once : Queue → Option State → ℕ → Queue × Option State
  push_item_once q a id = (write_item q id, elim a [ none ↦ none | some s ↦ some (add_ref s id).0 ])

  -- A wait: the state found, whether `timed_wait` was signalled, and whether the deadline is past.
  abbrev pub TimedWake : Type 0
  TimedWake = Queue × Option State × Bool × Bool

  unfoldable pub timed_loop :
      Queue → Option State → ℕ → List TimedWake → Outcome × Queue × Option State
  timed_loop q a id [] =
      if q.closed
      then (closed_queue, q, a)
      else if is_full q
      then (waiting, q, a)
      else done (push_item_once q a id)
  timed_loop q a id ((q', a', signalled, late) ∷ wakes) =
      let rest = timed_loop q' a' id wakes in
      if q.closed
      then (closed_queue, q, a)
      else if is_full q
      then (if not signalled || late then (timed_out, q', a') else rest)
      else done (push_item_once q a id)

  unfoldable pub push_with_timeout :
      Option Queue → Option State → ℕ → List TimedWake → Outcome × Option Queue × Option State
  push_with_timeout none a id wakes = (closed_queue, none, a)
  push_with_timeout (some q) a id wakes =
      if q.closed
      then (closed_queue, some q, a)
      else let (o, q', a') = timed_loop q a id wakes in (o, some q', a')
