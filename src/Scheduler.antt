-- ===== src/Scheduler.antt =====
-- multiqueue-shm/core/include/multiqueue/scheduler.hpp: the blocks known to the scheduler and what a
-- worker thread does with them. A block is known by its address, a number; a pass over the blocks
-- holds `blocks_mutex_`, so it is one step with respect to the methods. What a block's `work()` does is
-- a parameter.
pub mod Pass
pub mod Worker
pub mod Table
use mergeshare.Prelude.{
  ℕ, Bool, true, false, List, [], ◌∷◌, Option, none, some, length, ◌==◌, ◌+◌, ◌++◌, if◌then◌else◌,
  ◌||◌,
}
use mergeshare.Prelude.Dict.{lookup, insert, erase, nat_keys}
use mergeshare.Blocks.{BlockState, created, registered, ready, running, paused, stopped, error}

-- `ERROR` is `failed`, since `error` is the state of a block.
pub data WorkResult : Type 0 where
  ok : WorkResult
  done : WorkResult
  insufficient_input : WorkResult
  insufficient_output : WorkResult
  failed : WorkResult

pub record SchedulerConfig : Type 0 where
  pub num_threads : ℕ
  pub idle_sleep_ms : ℕ

-- The members; `threads` is the number of threads in `threads_`.
pub record Scheduler : Type 0 where
  pub config : SchedulerConfig
  pub is_running : Bool
  pub blocks : List (ℕ × ℕ)
  pub threads : ℕ

-- `Scheduler(config)`; `concurrency` is what `hardware_concurrency()` gives.
unfoldable pub new_scheduler : SchedulerConfig → ℕ → Scheduler
new_scheduler config concurrency =
    let detected = if config.num_threads == 0 then concurrency else config.num_threads in
    record {
      config = record config { num_threads = if detected == 0 then 4 else detected };
      is_running = false;
      blocks = [];
      threads = 0;
    }

-- Of a block its id and its address; `none` is `nullptr`.
unfoldable pub register_block : Scheduler → Option (ℕ × ℕ) → Scheduler × Bool
register_block s none = (s, false)
register_block s (some (id, block)) = elim (lookup nat_keys id s.blocks) [
  | some b ↦ (s, false)
  | none ↦ (record s { blocks = insert nat_keys id block s.blocks }, true)
]

unfoldable pub unregister_block : Scheduler → ℕ → Scheduler
unregister_block s id = record s { blocks = erase nat_keys id s.blocks }

abbrev pub block_count : Scheduler → ℕ
block_count s = length s.blocks

-- The threads started run `worker`.
unfoldable pub start : Scheduler → Scheduler × Bool
start s =
    if s.is_running
    then (s, false)
    else (record s { is_running = true; threads = s.threads + s.config.num_threads }, true)

-- Each thread is joined once it saw the flag.
unfoldable pub stop : Scheduler → Scheduler
stop s = if s.is_running then record s { is_running = false; threads = 0 } else s

abbrev pub is_running_state : BlockState → Bool
is_running_state created = false
is_running_state registered = false
is_running_state ready = false
is_running_state running = true
is_running_state paused = false
is_running_state stopped = false
is_running_state error = false

-- The state of every block, and whatever else their work reads and writes.
pub record Memory (S : Type 0) : Type 0 where
  pub states : ℕ → BlockState
  pub rest : S

-- A call of `work()`: on which block, and its result
abbrev pub Call : Type 0
Call = ℕ × WorkResult

-- The `switch` on the result: the state that the block is put into, and the new `did_work`.
unfoldable pub settle : WorkResult → BlockState → BlockState
settle ok b = b
settle done b = stopped
settle insufficient_input b = b
settle insufficient_output b = b
settle failed b = error

unfoldable pub worked : WorkResult → Bool
worked ok = true
worked done = false
worked insufficient_input = false
worked insufficient_output = false
worked failed = false

module _ {S : Type 0} (work : ℕ → Memory S → Memory S × WorkResult) where
  abbrev pub set_state : Memory S → ℕ → BlockState → Memory S
  set_state m p b = record m { states = λ q. if q == p then b else m.states q }

  -- The body of the loop for one block, with the call that it made.
  unfoldable pub visit : Memory S → ℕ → Memory S × Option Call
  visit m p =
      let (m', result) = work p m in
      if is_running_state (m.states p)
      then (set_state m' p (settle result (m'.states p)), some (p, result))
      else (m, none)

  -- One pass over the map, with `did_work` and the calls in their order.
  unfoldable pub run_pass : List (ℕ × ℕ) → Memory S → Memory S × (Bool × List Call)
  run_pass [] m = (m, (false, []))
  run_pass ((id, p) ∷ blocks) m =
      let (m', call) = visit m p in
      let (m'', (did_work, calls)) = run_pass blocks m' in
      elim call [
        | none ↦ (m'', (did_work, calls))
        | some (q, result) ↦ (m'', (worked result || did_work, (q, result) ∷ calls))
      ]

  -- `worker_thread`, on what its loads of `running_` gave; how often it slept, and its calls.
  unfoldable pub worker_thread :
      SchedulerConfig → List (ℕ × ℕ) → List Bool → Memory S → Memory S × (ℕ × List Call)
  worker_thread c blocks [] m = (m, (0, []))
  worker_thread c blocks (false ∷ loads) m = (m, (0, []))
  worker_thread c blocks (true ∷ loads) m =
      let (m', (did_work, calls)) = run_pass blocks m in
      let (m'', (sleeps, more)) = worker_thread c blocks loads m' in
      (m'', ((if did_work || (c.idle_sleep_ms == 0) then sleeps else sleeps + 1), calls ++ more))
