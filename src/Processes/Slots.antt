-- ===== src/Processes/Slots.antt =====
-- Processes.antt: which slots are taken, by which ids, and `process_count`.
use mergeshare.Prelude.{
  ℕ, suc, ◌+◌, ◌^◌, ◌<◌, ◌≡◌, ◌≢◌, ◌⊎◌, inl, inr, refl, sym, ap, ap₂, subst, to_i32, ◌∙◌, List, [],
  ◌∷◌, Option, none, some, arith, length, get_or, set, length-set, get_or-set, get_or-replicate,
  length-replicate, ◌==◌, if◌then◌else◌, Bool-cases, pos, minus_one, to_i32-pos, add32, sub32,
}
use mergeshare.Slots.{holding, holding-set, holding-pos, holding-replicate, holding-le}
use mergeshare.Processes.{
  ProcessInfo, ProcessRegistry, starting, stopped, blank_process, initialize_processes,
  fill_process, take_slot, register_process, unregister_process, process_at, max_processes,
  update_heartbeat,
}

abbrev pub process_id_of : ProcessInfo → ℕ
process_id_of p = p.process_id

-- Slot `i` is free or holds the id `i + 1`, and `process_count` is the number of slots not free.
pub record IsProcesses (r : ProcessRegistry) : Type 0 where
  pub sized : length r.processes ≡ max_processes
  pub counted : r.process_count + holding process_id_of 0 r.processes ≡ max_processes
  pub placed : (i : ℕ) → ((process_at r i).process_id ≡ 0) ⊎ ((process_at r i).process_id ≡ i + 1)

-- The registry that `initialize` sets up is well-formed.
pub initialize_processes-IsProcesses : IsProcesses initialize_processes
unfolding initialize_processes
initialize_processes-IsProcesses = record {
  sized = length-replicate max_processes blank_process;
  counted = ground (arith, holding-replicate process_id_of max_processes 0 blank_process refl);
  placed = λ i. inl (ap process_id_of (get_or-replicate max_processes i blank_process));
}

module _ (name : Option (List ℕ)) (now pid : ℕ) where
  abbrev Taken : ℕ → List ProcessInfo → Option (ℕ × List ProcessInfo) → Type 0
  Taken i ps out =
      ((out ≡ none) × (holding process_id_of 0 ps ≡ 0))
      ⊎ ((j : ℕ) × (j < length ps)
          × ((get_or ps j blank_process).process_id ≡ 0)
          × (out
              ≡ some (
                i + j,
                set ps j (fill_process (i + j) name now pid (get_or ps j blank_process)),
              )))

  take_slot-Taken : (i : ℕ) (ps : List ProcessInfo) → Taken i ps (take_slot i name now pid ps)
  unfolding take_slot
  take_slot-Taken i [] = inl (refl, refl)
  take_slot-Taken i (p ∷ ps) = elim (Bool-cases (p.process_id == 0)) [
    | inl e ↦ inr (
      0,
      omega arith,
      ground (arith, e),
      rw e (ap (λ (k : ℕ). some (k, fill_process k name now pid p ∷ ps)) (omega arith)),
    )
    | inr e ↦ elim (take_slot-Taken (i + 1) ps) [
      | inl (o, taken) ↦ inl (rw (e, o) refl, ground (arith, e))
      | inr (j, lt, free, o) ↦ inr (
        suc j,
        omega arith,
        free,
        rw (e, o)
            (ap
              (λ (k : ℕ).
                some (k, p ∷ set ps j (fill_process k name now pid (get_or ps j blank_process))))
              (omega arith)),
      )
    ]
  ]

  -- A slot whose process has just started.
  abbrev pub Starts : ProcessInfo → ℕ → Type 0
  Starts p i =
      (p.process_id ≡ i + 1)
      × (p.state ≡ starting)
      × (p.last_heartbeat_ns ≡ now)
      × (p.native_pid ≡ pid)

  fill_process-Starts : (i : ℕ) (p : ProcessInfo) → Starts (fill_process i name now pid p) i
  unfolding fill_process update_heartbeat
  fill_process-Starts i p = (refl, refl, refl, refl)

  -- The registry after slot `i` was filled.
  abbrev filled : ProcessRegistry → ℕ → ProcessRegistry
  filled r i = record {
    process_count = add32 r.process_count 1;
    processes = set r.processes i (fill_process i name now pid (process_at r i));
  }

  register_process-full :
      (r : ProcessRegistry)
      → take_slot 0 name now pid r.processes ≡ none
      → register_process r name now pid ≡ (minus_one, r)
  unfolding register_process
  register_process-full r o = rw (o, register_process) refl

  register_process-free :
      (r : ProcessRegistry) (i : ℕ)
      → i < 2 ^ 31
      → take_slot 0 name now pid r.processes
        ≡ some (0 + i, set r.processes i (fill_process (0 + i) name now pid (process_at r i)))
      → register_process r name now pid ≡ (pos i, filled r i)
  unfolding register_process
  register_process-free r i small o =
      rw (o, register_process)
        (ap₂
          (λ z (k : ℕ). (
            z,
            record {
              process_count = add32 r.process_count 1;
              processes = set r.processes i (fill_process k name now pid (process_at r i));
            },
          ))
          (ap to_i32 {y = i} (omega arith) ∙ to_i32-pos i small) (omega arith))

  filled-at :
      (r : ProcessRegistry) (i j : ℕ)
      → i < length r.processes
      → process_at (filled r i) j
        ≡ (if i == j then fill_process i name now pid (process_at r i) else process_at r j)
  filled-at r i j lt = ground (
    arith,
    get_or-set r.processes i j (fill_process i name now pid (process_at r i)) blank_process,
  )

  filled_self :
      (r : ProcessRegistry) (i : ℕ)
      → i < length r.processes
      → process_at (filled r i) i ≡ fill_process i name now pid (process_at r i)
  filled_self r i lt = filled-at r i i lt ∙ ground arith

  filled-IsProcesses :
      (r : ProcessRegistry) (i : ℕ)
      → IsProcesses r
      → i < max_processes
      → (process_at r i).process_id ≡ 0
      → IsProcesses (filled r i)
  filled-IsProcesses r i ok lt free = record {
    sized = length-set r.processes i _ ∙ ok.sized;
    counted = ground (
      arith,
      ok.counted,
      ok.sized,
      free,
      (fill_process-Starts i (process_at r i)).0,
      holding-set process_id_of 0 r.processes i (fill_process i name now pid (process_at r i))
          blank_process,
      holding-pos process_id_of r.processes i blank_process,
    );
    placed = λ j.
        ground (
          arith,
          filled-at r i j,
          ok.placed j,
          ok.sized,
          (fill_process-Starts i (process_at r i)).0,
        );
  }

  -- On a well-formed registry, `register_process` returns -1 and changes nothing if all
  -- `MAX_PROCESSES` slots are taken; otherwise it returns the number of a slot that was free, which
  -- then holds its number plus one as the id of a process that has just started, with one process
  -- more counted, every other slot as it was, and the registry well-formed.
  pub register_process-IsProcesses :
      (r : ProcessRegistry)
      → IsProcesses r
      → let res = register_process r name now pid in
        ((r.process_count ≡ max_processes) × (res ≡ (minus_one, r)))
        ⊎ ((i : ℕ) × (i < max_processes)
            × ((process_at r i).process_id ≡ 0)
            × (res.0 ≡ pos i)
            × Starts (process_at res.1 i) i
            × ((j : ℕ) → j ≢ i → process_at res.1 j ≡ process_at r j)
            × (res.1.process_count ≡ r.process_count + 1)
            × IsProcesses res.1)
  register_process-IsProcesses r ok = elim (take_slot-Taken 0 r.processes) [
    | inl (o, none_free) ↦ inl (ground (arith, ok.counted), register_process-full r o)
    | inr (i, lt, free, o) ↦
        let lt' : i < max_processes = omega (arith, ok.sized) in
        rw (register_process-free r i (omega arith) o) (
          inr (
            i,
            lt',
            free,
            refl,
            subst (λ p. Starts p i) (sym (filled_self r i lt))
                (fill_process-Starts i (process_at r i)),
            (λ j ne. filled-at r i j lt ∙ ground (arith, ne)),
            ground (arith, ok.counted, free, holding-pos process_id_of r.processes i blank_process),
            filled-IsProcesses r i ok lt' free,
          ))
  ]

-- The registry after the process of slot `i` left.
abbrev emptied : ProcessRegistry → ℕ → ProcessRegistry
emptied r i = record {
  process_count = sub32 r.process_count 1;
  processes = set r.processes i (record (process_at r i) { process_id = 0; state = stopped });
}

unregister_process-cases :
    (r : ProcessRegistry) (i : ℕ)
    → i < max_processes
    → unregister_process r (pos i) ≡ (if (process_at r i).process_id == 0 then r else emptied r i)
unfolding unregister_process
unregister_process-cases r i lt = ground arith

emptied-at :
    (r : ProcessRegistry) (i j : ℕ)
    → i < length r.processes
    → process_at (emptied r i) j ≡ (
        if i == j
        then record (process_at r i) { process_id = 0; state = stopped }
        else process_at r j)
emptied-at r i j lt = ground (
  arith,
  get_or-set r.processes i j (record (process_at r i) { process_id = 0; state = stopped })
      blank_process,
)

emptied-IsProcesses :
    (r : ProcessRegistry) (i : ℕ)
    → IsProcesses r
    → i < max_processes
    → (process_at r i).process_id ≢ 0
    → (0 < r.process_count) × IsProcesses (emptied r i)
emptied-IsProcesses r i ok lt taken =
    let moved =
      holding-set process_id_of 0 r.processes i
        (record (process_at r i) { process_id = 0; state = stopped }) blank_process in
    let below = holding-le process_id_of 0 (emptied r i).processes in
    let same : length (emptied r i).processes ≡ length r.processes = length-set r.processes i _ in
    (
      ground (arith, ok.counted, ok.sized, taken, moved, below, same),
      record {
        sized = same ∙ ok.sized;
        counted = ground (arith, ok.counted, ok.sized, taken, moved, below, same);
        placed = λ j. ground (arith, emptied-at r i j, ok.placed j, ok.sized);
      },
    )

-- On a well-formed registry, `unregister_process` of a slot leaves it free, counts one process less
-- if it was taken and none less if it was free, keeps every other slot, and leaves the registry
-- well-formed.
pub unregister_process-IsProcesses :
    (r : ProcessRegistry) (i : ℕ)
    → IsProcesses r
    → i < max_processes
    → let r' = unregister_process r (pos i) in
      ((process_at r' i).process_id ≡ 0)
      × ((j : ℕ) → j ≢ i → process_at r' j ≡ process_at r j)
      × (r'.process_count + (if (process_at r i).process_id == 0 then 0 else 1) ≡ r.process_count)
      × IsProcesses r'
unregister_process-IsProcesses r i ok lt = elim (Bool-cases ((process_at r i).process_id == 0)) [
  | inl free ↦
      let same : unregister_process r (pos i) ≡ r =
        unregister_process-cases r i lt ∙ ground (arith, free) in
      rw same (ground (arith, free), (λ j ne. refl), ground (arith, free), ok)
  | inr taken ↦
      let gone : unregister_process r (pos i) ≡ emptied r i =
        unregister_process-cases r i lt ∙ ground (arith, taken) in
      let (some_taken, still) = emptied-IsProcesses r i ok lt (ground (arith, taken)) in
      rw gone (
        ground (arith, emptied-at r i i, ok.sized),
        (λ j ne. emptied-at r i j (omega (arith, ok.sized)) ∙ ground (arith, ne)),
        ground (arith, taken, some_taken, ok.counted),
        still,
      )
]
