-- ===== src/Scheduler/Table.antt =====
-- scheduler.hpp: the blocks that the scheduler knows, and its threads.
use mergeshare.Prelude.{
  ℕ, suc, ◌+◌, ◌<◌, ◌≡◌, ◌⊎◌, inl, inr, refl, true, false, List, [], ◌∷◌, Option, none, some, arith,
  length, if◌then◌else◌, ◌==◌, Option-cases,
}
use mergeshare.Prelude.Dict.{lookup, insert, erase, nat_keys, lookup-insert, lookup-erase}
use mergeshare.Scheduler.{
  Scheduler, SchedulerConfig, new_scheduler, register_block, unregister_block, block_count, start,
  stop,
}

-- How many entries have the id
abbrev pub entries : ℕ → List (ℕ × ℕ) → ℕ
entries id [] = 0
entries id ((j, p) ∷ blocks) = if j == id then suc (entries id blocks) else entries id blocks

entries-lookup :
    (id : ℕ) (blocks : List (ℕ × ℕ)) → (lookup nat_keys id blocks ≡ none) → entries id blocks ≡ 0
entries-lookup id [] e = refl
entries-lookup id ((j, p) ∷ blocks) e = ground (arith, e, entries-lookup id blocks)

entries-insert :
    (id k p : ℕ) (blocks : List (ℕ × ℕ))
    → lookup nat_keys id blocks ≡ none
    → entries k (insert nat_keys id p blocks) ≡ (if id == k then 1 else entries k blocks)
entries-insert id k p [] e = ground arith
entries-insert id k p ((j, q) ∷ blocks) e =
    ground (arith, e, entries-insert id k p blocks, entries-lookup id blocks)

length-insert :
    (id p : ℕ) (blocks : List (ℕ × ℕ))
    → lookup nat_keys id blocks ≡ none
    → length (insert nat_keys id p blocks) ≡ length blocks + 1
length-insert id p [] e = refl
length-insert id p ((j, q) ∷ blocks) e = ground (arith, e, length-insert id p blocks)

entries-erase :
    (id k : ℕ) (blocks : List (ℕ × ℕ))
    → entries k (erase nat_keys id blocks) ≡ (if id == k then 0 else entries k blocks)
entries-erase id k [] = ground arith
entries-erase id k ((j, q) ∷ blocks) = ground (arith, entries-erase id k blocks)

length-erase :
    (id : ℕ) (blocks : List (ℕ × ℕ))
    → length (erase nat_keys id blocks) + entries id blocks ≡ length blocks
length-erase id [] = refl
length-erase id ((j, q) ∷ blocks) = ground (arith, length-erase id blocks)

-- A scheduler's map has each id once; it has threads exactly when it runs.
pub record IsScheduler (s : Scheduler) : Type 0 where
  pub once : (id : ℕ) → entries id s.blocks < 2
  pub staffed : s.threads ≡ (if s.is_running then s.config.num_threads else 0)
  pub threads : 0 < s.config.num_threads

pub new_scheduler-IsScheduler :
    (c : SchedulerConfig) (concurrency : ℕ) → IsScheduler (new_scheduler c concurrency)
unfolding new_scheduler
new_scheduler-IsScheduler c concurrency = record {
  once = λ id. omega arith;
  staffed = refl;
  threads = ground arith;
}

module _ (s : Scheduler) (id p : ℕ) where
  register_block-some :
      (b : ℕ) → lookup nat_keys id s.blocks ≡ some b → register_block s (some (id, p)) ≡ (s, false)
  unfolding register_block
  register_block-some b e = rw (e, register_block) refl

  pub register_block-none :
      lookup nat_keys id s.blocks ≡ none
      → register_block s (some (id, p))
        ≡ (record s { blocks = insert nat_keys id p s.blocks }, true)
  unfolding register_block
  register_block-none e = rw (e, register_block) refl

  register_block-taken :
      lookup nat_keys id s.blocks ≡ none
      → IsScheduler s
      → IsScheduler (record s { blocks = insert nat_keys id p s.blocks })
  register_block-taken e ok = record {
    once = λ k. ground (arith, entries-insert id k p s.blocks e, ok.once k);
    staffed = ok.staffed;
    threads = ok.threads;
  }

  pub unregister_block-IsScheduler : IsScheduler s → IsScheduler (unregister_block s id)
  unfolding unregister_block
  unregister_block-IsScheduler ok = record {
    once = λ k. ground (arith, entries-erase id k s.blocks, ok.once k);
    staffed = ok.staffed;
    threads = ok.threads;
  }

  -- On a well-formed scheduler, either the id was not taken: the block is registered, the id stands for
  -- it, the other ids for what they did, there is one block more, and unregistering the id gives back
  -- the count and what every id stood for. Or it was taken, and the call returns false and changes
  -- nothing. In both cases the scheduler stays well-formed.
  pub register_block-IsScheduler :
      IsScheduler s
      → let (t, done) = register_block s (some (id, p)) in
        let u = unregister_block t id in
        IsScheduler t
        × ((done ≡ true)
              × (lookup nat_keys id s.blocks ≡ none)
              × ((j : ℕ)
                  → lookup nat_keys j t.blocks
                    ≡ (if id == j then some p else lookup nat_keys j s.blocks))
              × (block_count t ≡ block_count s + 1)
              × (block_count u ≡ block_count s)
              × ((j : ℕ) → lookup nat_keys j u.blocks ≡ lookup nat_keys j s.blocks)
            ⊎ (done ≡ false) × (t ≡ s) × ((b : ℕ) × (lookup nat_keys id s.blocks ≡ some b)))
  unfolding unregister_block
  register_block-IsScheduler ok = elim (Option-cases (lookup nat_keys id s.blocks)) [
    | inl e ↦
        let m = insert nat_keys id p s.blocks in
        rw (register_block-none e) (
          register_block-taken e ok,
          inl (
            refl,
            e,
            (λ j. lookup-insert nat_keys id j p s.blocks),
            length-insert id p s.blocks e,
            ground (
              arith,
              length-erase id m,
              entries-insert id id p s.blocks e,
              length-insert id p s.blocks e,
            ),
            λ j.
                ground
                  (arith, lookup-erase nat_keys id j m, lookup-insert nat_keys id j p s.blocks, e),
          ),
        )
    | inr (b, e) ↦ rw (register_block-some b e) (ok, inr (refl, refl, (b, e)))
  ]

pub start-IsScheduler : (s : Scheduler) → IsScheduler s → IsScheduler (start s).0
unfolding start
start-IsScheduler s ok = record {
  once = λ k. ground (arith, ok.once k);
  staffed = ground (arith, ok.staffed);
  threads = ground (arith, ok.threads);
}

pub stop-IsScheduler : (s : Scheduler) → IsScheduler s → IsScheduler (stop s)
unfolding stop
stop-IsScheduler s ok = record {
  once = λ k. ground (arith, ok.once k);
  staffed = ground (arith, ok.staffed);
  threads = ground (arith, ok.threads);
}

-- The calls of the methods
pub data Op : Type 0 where
  registers : Option (ℕ × ℕ) → Op
  unregisters : ℕ → Op
  starts : Op
  stops : Op

abbrev pub run : List Op → Scheduler → Scheduler
run [] s = s
run (registers b ∷ ops) s = run ops (register_block s b).0
run (unregisters id ∷ ops) s = run ops (unregister_block s id)
run (starts ∷ ops) s = run ops (start s).0
run (stops ∷ ops) s = run ops (stop s)

register_none : (s : Scheduler) → IsScheduler s → IsScheduler (register_block s none).0
unfolding register_block
register_none s ok = ok

run-kept : (ops : List Op) (s : Scheduler) → IsScheduler s → IsScheduler (run ops s)
run-kept [] s ok = ok
run-kept (registers none ∷ ops) s ok = run-kept ops (register_block s none).0 (register_none s ok)
run-kept (registers (some (id, p)) ∷ ops) s ok =
    run-kept ops (register_block s (some (id, p))).0 (register_block-IsScheduler s id p ok).0
run-kept (unregisters id ∷ ops) s ok =
    run-kept ops (unregister_block s id) (unregister_block-IsScheduler s id 0 ok)
run-kept (starts ∷ ops) s ok = run-kept ops (start s).0 (start-IsScheduler s ok)
run-kept (stops ∷ ops) s ok = run-kept ops (stop s) (stop-IsScheduler s ok)

-- Whatever methods are called on a new scheduler, one after the other, no id is in its map twice, it
-- has threads exactly while it runs, and then as many as its configuration says, at least one.
pub run-IsScheduler :
    (c : SchedulerConfig) (concurrency : ℕ) (ops : List Op)
    → IsScheduler (run ops (new_scheduler c concurrency))
run-IsScheduler c concurrency ops =
    run-kept ops (new_scheduler c concurrency) (new_scheduler-IsScheduler c concurrency)
