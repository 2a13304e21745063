-- ===== src/Scheduler/Worker.antt =====
-- scheduler.hpp: what a worker thread does over all its passes.
use mergeshare.Prelude.{
  ℕ, suc, ◌+◌, ◌≡◌, refl, Bool, true, false, List, [], ◌∷◌, ◌++◌, arith, ◌==◌, if◌then◌else◌, ◌||◌,
  ◌&&◌, not,
}
use mergeshare.Blocks.{BlockState}
use mergeshare.Scheduler.{
  WorkResult, ok, done, insufficient_input, insufficient_output, failed, Memory, Call,
  SchedulerConfig, settle, is_running_state, visit, run_pass, worker_thread,
}
use mergeshare.Scheduler.Pass.{result, visit-states, run_pass-nil, run_pass-cons}

-- Results after which a block is left alone
abbrev pub ends : WorkResult → Bool
ends ok = false
ends done = true
ends insufficient_input = false
ends insufficient_output = false
ends failed = true

abbrev pub count_calls : ℕ → List Call → ℕ
count_calls q [] = 0
count_calls q ((p, r) ∷ calls) = if p == q then suc (count_calls q calls) else count_calls q calls

-- Whether a call of the block at `q` had such a result, and whether it was called no more after one
abbrev pub ended : ℕ → List Call → Bool
ended q [] = false
ended q ((p, r) ∷ calls) = ((p == q) && ends r) || ended q calls

abbrev pub rested : ℕ → List Call → Bool
rested q [] = true
rested q ((p, r) ∷ calls) =
    (if (p == q) && ends r then count_calls q calls == 0 else true) && rested q calls

-- The number of passes: the loads before the first `false`
abbrev pub passes : List Bool → ℕ
passes [] = 0
passes (false ∷ loads) = 0
passes (true ∷ loads) = suc (passes loads)

count_calls-append :
    (q : ℕ) (xs ys : List Call) → count_calls q (xs ++ ys) ≡ count_calls q xs + count_calls q ys
count_calls-append q [] ys = ground arith
count_calls-append q ((p, r) ∷ xs) ys = ground (arith, count_calls-append q xs ys)

ended-append : (q : ℕ) (xs ys : List Call) → ended q (xs ++ ys) ≡ (ended q xs || ended q ys)
ended-append q [] ys = refl
ended-append q ((p, r) ∷ xs) ys = ground (arith, ended-append q xs ys)

rested-append :
    (q : ℕ) (xs ys : List Call)
    → rested q xs ≡ true
    → rested q ys ≡ true
    → (ended q xs ≡ true → count_calls q ys ≡ 0)
    → rested q (xs ++ ys) ≡ true
rested-append q [] ys a b silent = b
rested-append q ((p, r) ∷ xs) ys a b silent =
    ground (arith, count_calls-append q xs ys, a, b, silent, rested-append q xs ys)

settle-running :
    (r : WorkResult) (b : BlockState)
    → is_running_state (settle r b) ≡ (not (ends r) && is_running_state b)
unfolding settle
settle-running ok b = refl
settle-running done b = refl
settle-running insufficient_input b = refl
settle-running insufficient_output b = refl
settle-running failed b = refl

module _ {S : Type 0} (work : ℕ → Memory S → Memory S × WorkResult)
    (keeps : (p : ℕ) (m : Memory S) (q : ℕ) → (work p m).0.states q ≡ m.states q) where
  -- A block that is not running is not called, and stays as it is.
  run_pass-idle :
      (blocks : List (ℕ × ℕ)) (m : Memory S) (q : ℕ)
      → is_running_state (m.states q) ≡ false
      → let (m', (did_work, calls)) = run_pass work blocks m in
        (m'.states q ≡ m.states q) × (count_calls q calls ≡ 0)
  run_pass-idle [] m q off = rw (run_pass-nil work keeps m) (refl, refl)
  run_pass-idle ((id, p) ∷ blocks) m q off = rw (run_pass-cons work keeps m id p blocks) (
      ground (arith, visit-states work keeps m p q, off, run_pass-idle blocks (visit work m p).0 q))

  run_pass-rested :
      (blocks : List (ℕ × ℕ)) (m : Memory S) (q : ℕ)
      → let (m', (did_work, calls)) = run_pass work blocks m in
        (rested q calls ≡ true) × (ended q calls ≡ true → is_running_state (m'.states q) ≡ false)
  run_pass-rested [] m q = rw (run_pass-nil work keeps m) (refl, λ e. cc (e))
  run_pass-rested ((id, p) ∷ blocks) m q = rw (run_pass-cons work keeps m id p blocks) (
      ground (
        arith,
        visit-states work keeps m p q,
        settle-running (result work keeps m p) (m.states q),
        run_pass-idle blocks (visit work m p).0 q,
        run_pass-rested blocks (visit work m p).0 q,
      ))

  module _ (c : SchedulerConfig) (blocks : List (ℕ × ℕ)) where
    worker_thread-step :
        (loads : List Bool) (m : Memory S)
        → let (m', (did_work, calls)) = run_pass work blocks m in
          let (m'', (sleeps, more)) = worker_thread work c blocks loads m' in
          ((worker_thread work c blocks (true ∷ loads) m).0 ≡ m'')
          × ((worker_thread work c blocks (true ∷ loads) m).1.1 ≡ calls ++ more)
    unfolding worker_thread
    worker_thread-step loads m = (refl, refl)

    worker_thread-end :
        (loads : List Bool) (m : Memory S)
        → passes loads ≡ 0
        → worker_thread work c blocks loads m ≡ (m, (0, []))
    unfolding worker_thread
    worker_thread-end [] m e = refl
    worker_thread-end (false ∷ loads) m e = refl
    worker_thread-end (true ∷ loads) m e = absurd (omega arith)

    worker_thread-idle :
        (loads : List Bool) (m : Memory S) (q : ℕ)
        → is_running_state (m.states q) ≡ false
        → let (m', (sleeps, calls)) = worker_thread work c blocks loads m in
          (m'.states q ≡ m.states q) × (count_calls q calls ≡ 0)
    worker_thread-idle [] m q off = rw (worker_thread-end [] m refl) (refl, refl)
    worker_thread-idle (false ∷ loads) m q off =
        rw (worker_thread-end (false ∷ loads) m refl) (refl, refl)
    worker_thread-idle (true ∷ loads) m q off =
        rw ((worker_thread-step loads m).0, (worker_thread-step loads m).1)
          (ground (
            arith,
            off,
            run_pass-idle blocks m q,
            worker_thread-idle loads (run_pass work blocks m).0 q,
            count_calls-append q (run_pass work blocks m).1.1
                (worker_thread work c blocks loads (run_pass work blocks m).0).1.1,
          ))

    -- When no work() changes a state, a worker never calls a block again after a call of it that returned
    -- `done` or `failed`, over any number of passes and whatever the other blocks do; such a block
    -- ends up not running.
    pub worker_thread-rested :
        (loads : List Bool) (m : Memory S) (q : ℕ)
        → let (m', (sleeps, calls)) = worker_thread work c blocks loads m in
          (rested q calls ≡ true) × (ended q calls ≡ true → is_running_state (m'.states q) ≡ false)
    worker_thread-rested [] m q = rw (worker_thread-end [] m refl) (refl, λ e. cc (e))
    worker_thread-rested (false ∷ loads) m q =
        rw (worker_thread-end (false ∷ loads) m refl) (refl, λ e. cc (e))
    worker_thread-rested (true ∷ loads) m q =
        rw ((worker_thread-step loads m).0, (worker_thread-step loads m).1)
          (ground (
            arith,
            run_pass-rested blocks m q,
            worker_thread-rested loads (run_pass work blocks m).0 q,
            worker_thread-idle loads (run_pass work blocks m).0 q,
            ended-append q (run_pass work blocks m).1.1
                (worker_thread work c blocks loads (run_pass work blocks m).0).1.1,
            rested-append q (run_pass work blocks m).1.1
                (worker_thread work c blocks loads (run_pass work blocks m).0).1.1,
          ))
