-- ===== src/Scheduler/Pass.antt =====
-- scheduler.hpp: what one pass of a worker over the blocks does.
use mergeshare.Prelude.{
  ℕ, ◌≡◌, ◌≢◌, refl, ap, ◌∙◌, Bool, true, false, List, [], ◌∷◌, Option, none, some, arith, ◌==◌,
  if◌then◌else◌, ◌||◌, ◌&&◌, not,
}
use mergeshare.Prelude.Dict.{lookup, nat_keys}
use mergeshare.Blocks.{BlockState, stopped, error}
use mergeshare.Scheduler.{
  WorkResult, ok, done, insufficient_input, insufficient_output, failed, Memory, Call, settle,
  worked, is_running_state, visit, run_pass,
}

-- Whether no entry of the map is the block at address `p`, and whether no block is entered twice
abbrev pub absent : ℕ → List (ℕ × ℕ) → Bool
absent p [] = true
absent p ((id, q) ∷ blocks) = not (q == p) && absent p blocks

abbrev pub distinct : List (ℕ × ℕ) → Bool
distinct [] = true
distinct ((id, p) ∷ blocks) = absent p blocks && distinct blocks

-- The addresses of the running blocks in the order of the map
abbrev pub due : (ℕ → BlockState) → List (ℕ × ℕ) → List ℕ
due states [] = []
due states ((id, p) ∷ blocks) =
    if is_running_state (states p) then p ∷ due states blocks else due states blocks

abbrev pub called : List Call → List ℕ
called [] = []
called ((p, result) ∷ calls) = p ∷ called calls

-- The result that the block's call had, if it was called
abbrev pub result_of : ℕ → List Call → Option WorkResult
result_of p calls = lookup nat_keys p calls

abbrev pub after : Option WorkResult → BlockState → BlockState
after none b = b
after (some ok) b = b
after (some done) b = stopped
after (some insufficient_input) b = b
after (some insufficient_output) b = b
after (some failed) b = error

abbrev pub any_worked : List Call → Bool
any_worked [] = false
any_worked ((p, ok) ∷ calls) = true
any_worked ((p, done) ∷ calls) = any_worked calls
any_worked ((p, insufficient_input) ∷ calls) = any_worked calls
any_worked ((p, insufficient_output) ∷ calls) = any_worked calls
any_worked ((p, failed) ∷ calls) = any_worked calls

settle_lem : (r : WorkResult) (b : BlockState) → settle r b ≡ after (some r) b
unfolding settle
settle_lem ok b = refl
settle_lem done b = refl
settle_lem insufficient_input b = refl
settle_lem insufficient_output b = refl
settle_lem failed b = refl

worked_lem :
    (p : ℕ) (r : WorkResult) (calls : List Call)
    → (worked r || any_worked calls) ≡ any_worked ((p, r) ∷ calls)
unfolding worked
worked_lem p ok calls = refl
worked_lem p done calls = refl
worked_lem p insufficient_input calls = refl
worked_lem p insufficient_output calls = refl
worked_lem p failed calls = refl

-- The same by the code's `settle` and `worked`
abbrev settled : Option WorkResult → BlockState → BlockState
settled none b = b
settled (some r) b = settle r b

abbrev some_worked : List Call → Bool
some_worked [] = false
some_worked ((p, r) ∷ calls) = worked r || some_worked calls

settled_lem : (o : Option WorkResult) (b : BlockState) → settled o b ≡ after o b
settled_lem none b = refl
settled_lem (some r) b = settle_lem r b

some_worked_lem : (calls : List Call) → some_worked calls ≡ any_worked calls
some_worked_lem [] = refl
some_worked_lem ((p, r) ∷ calls) =
    ap (λ x. worked r || x) (some_worked_lem calls) ∙ worked_lem p r calls

due-agree :
    (f g : ℕ → BlockState) (blocks : List (ℕ × ℕ)) (p : ℕ)
    → ((q : ℕ) → q ≢ p → f q ≡ g q)
    → absent p blocks ≡ true
    → due f blocks ≡ due g blocks
due-agree f g [] p e off = refl
due-agree f g ((id, q) ∷ blocks) p e off = ground (arith, e q, due-agree f g blocks p e)

module _ {S : Type 0} (work : ℕ → Memory S → Memory S × WorkResult)
    (keeps : (p : ℕ) (m : Memory S) (q : ℕ) → (work p m).0.states q ≡ m.states q) where
  abbrev call_of : Memory S → ℕ → Option Call
  call_of m p = (visit work m p).1

  abbrev pub result : Memory S → ℕ → WorkResult
  result m p = (work p m).1

  pub visit-called :
      (m : Memory S) (p : ℕ)
      → (visit work m p).1 ≡ (if is_running_state (m.states p) then some (p, result m p) else none)
  unfolding visit
  visit-called m p = ground arith

  pub visit-states :
      (m : Memory S) (p q : ℕ)
      → (visit work m p).0.states q ≡ (
          if (q == p) && is_running_state (m.states p)
          then settle (result m p) (m.states q)
          else m.states q)
  unfolding visit
  visit-states m p q = ground (arith, keeps p m q, keeps p m p)

  abbrev rest_of : List (ℕ × ℕ) → Memory S → ℕ → Memory S × (Bool × List Call)
  rest_of blocks m p = run_pass work blocks (visit work m p).0

  pub run_pass-cons :
      (m : Memory S) (id p : ℕ) (blocks : List (ℕ × ℕ))
      → run_pass work ((id, p) ∷ blocks) m ≡ (
          if is_running_state (m.states p)
          then (
            (rest_of blocks m p).0,
            (
              worked (result m p) || (rest_of blocks m p).1.0,
              (p, result m p) ∷ (rest_of blocks m p).1.1,
            ),
          )
          else rest_of blocks m p)
  unfolding run_pass
  run_pass-cons m id p blocks = ground (arith, visit-called m p)

  pub run_pass-nil : (m : Memory S) → run_pass work [] m ≡ (m, (false, []))
  unfolding run_pass
  run_pass-nil m = refl

  pub run_pass-absent :
      (blocks : List (ℕ × ℕ)) (m : Memory S) (q : ℕ)
      → absent q blocks ≡ true
      → let (m', (did_work, calls)) = run_pass work blocks m in
        (m'.states q ≡ m.states q) × (result_of q calls ≡ none)
  run_pass-absent [] m q off = rw (run_pass-nil m) (refl, refl)
  run_pass-absent ((id, p) ∷ blocks) m q off = rw (run_pass-cons m id p blocks) (
      ground (
        arith,
        run_pass-absent blocks (visit work m p).0 q (ground (arith, off)),
        visit-states m p q,
      ))

  -- The tail of the map runs as it would from the memory before the head's visit.
  due_rest :
      (blocks : List (ℕ × ℕ)) (m : Memory S) (p : ℕ)
      → absent p blocks ≡ true
      → due (visit work m p).0.states blocks ≡ due m.states blocks
  due_rest blocks m p off =
      due-agree (visit work m p).0.states m.states blocks p
        (λ q ne. ground (arith, visit-states m p q)) off

  runs :
      (blocks : List (ℕ × ℕ)) (m : Memory S)
      → distinct blocks ≡ true
      → let (m', (did_work, calls)) = run_pass work blocks m in
        (called calls ≡ due m.states blocks)
        × ((q : ℕ) → m'.states q ≡ settled (result_of q calls) (m.states q))
        × (did_work ≡ some_worked calls)
  runs [] m once = rw (run_pass-nil m) (refl, (λ q. refl), refl)
  runs ((id, p) ∷ blocks) m once =
      let (order, states, some_work) = runs blocks (visit work m p).0 (ground (arith, once)) in
      let (kept, uncalled) = run_pass-absent blocks (visit work m p).0 p (ground (arith, once)) in
      rw (run_pass-cons m id p blocks) (
        ground (arith, order, due_rest blocks m p),
        (λ q. ground (arith, states q, kept, uncalled, visit-states m p q)),
        ground (arith, some_work),
      )

  -- When no work() changes a state and no block is entered twice, one pass calls exactly the blocks that
  -- were running when it began, once each and in the order of the map; each block ends in the state
  -- that its call's result asks for (`done` stops it, `failed` puts it in error), the others stay as
  -- they were; and `did_work` holds exactly when some call returned `ok`.
  pub run_pass-Runs :
      (blocks : List (ℕ × ℕ)) (m : Memory S)
      → distinct blocks ≡ true
      → let (m', (did_work, calls)) = run_pass work blocks m in
        (called calls ≡ due m.states blocks)
        × ((q : ℕ) → m'.states q ≡ after (result_of q calls) (m.states q))
        × (did_work ≡ any_worked calls)
  run_pass-Runs blocks m once =
      let (order, states, some_work) = runs blocks m once in
      let calls = (run_pass work blocks m).1.1 in
      (
        order,
        (λ q. states q ∙ settled_lem (result_of q calls) (m.states q)),
        some_work ∙ some_worked_lem calls,
      )
