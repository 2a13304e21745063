-- ===== src/Tests/Scheduling.antt =====
-- A scheduler with two blocks, one of which finishes at once, and a runtime with their objects.
use mergeshare.Prelude.{ℕ, ◌+◌, ◌≡◌, refl, Bool, true, false, List, [], ◌∷◌, if◌then◌else◌, ◌==◌}
use mergeshare.Blocks.{running}
use mergeshare.Block.{PortConfig, output, async}
use mergeshare.Scheduler.{
  Scheduler, SchedulerConfig, WorkResult, ok, done, Memory, run_pass, worker_thread, new_scheduler,
  is_running_state,
}
use mergeshare.Scheduler.Pass.{due, called, after, result_of, any_worked, run_pass-Runs}
use mergeshare.Scheduler.Worker.{rested, ended, worker_thread-rested}

-- A port called "a"
abbrev port_a : PortConfig
port_a = record { name = 97 ∷ []; port_type = output; sync_mode = async; queue_capacity = 8 }

-- The block at 10 works on, the one at 20 is done.
abbrev memory : Memory ℕ
memory = record { states = λ p. running; rest = 0 }

abbrev work : ℕ → Memory ℕ → Memory ℕ × WorkResult
work p m = (record m { rest = m.rest + p }, if p == 10 then ok else done)

work_keeps : (p : ℕ) (m : Memory ℕ) (q : ℕ) → (work p m).0.states q ≡ m.states q
work_keeps p m q = refl

abbrev blocks : List (ℕ × ℕ)
blocks = (1, 10) ∷ (2, 20) ∷ []

run_pass-Runs_example :
    let (m', (did_work, calls)) = run_pass work blocks memory in
    (called calls ≡ due memory.states blocks)
    × ((q : ℕ) → m'.states q ≡ after (result_of q calls) running)
    × (did_work ≡ any_worked calls)
run_pass-Runs_example = run_pass-Runs work work_keeps blocks memory refl

abbrev config : SchedulerConfig
config = record { num_threads = 2; idle_sleep_ms = 1 }

abbrev loads : List Bool
loads = true ∷ true ∷ false ∷ []

worker_thread-rested_example :
    let (m', (sleeps, calls)) = worker_thread work config blocks loads memory in
    (rested 20 calls ≡ true) × (ended 20 calls ≡ true → is_running_state (m'.states 20) ≡ false)
worker_thread-rested_example = worker_thread-rested work work_keeps config blocks loads memory 20

abbrev scheduler : Scheduler
scheduler = new_scheduler config 8
