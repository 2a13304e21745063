-- ===== src/Processes.antt =====
-- multiqueue-shm/core/include/multiqueue/global_registry.hpp: `ProcessInfo` and `ProcessRegistry`. A
-- method under `mutex` is one step; `now` is what the clock gives and `pid` what the operating system
-- gives as the process's number.
pub mod Slots
pub mod Heartbeat
use mergeshare.Prelude.{
  ℕ, suc, ◌+◌, Bool, List, [], ◌∷◌, Option, none, some, ltb, leb, ◌==◌, if◌then◌else◌, not, ◌&&◌,
  ◌||◌, get_or, set, replicate, add32, sub32, sub64, ℤ, pos, minus_one, is_negative, to_i32,
}
use mergeshare.Pool.{index, ge_i32}
use mergeshare.Control.{copy_text}
use mergeshare.Blocks.{rename}

-- MAX_PROCESSES
abbrev pub max_processes : ℕ
max_processes = 64

-- INVALID_PROCESS_ID
abbrev pub invalid_process_id : ℕ
invalid_process_id = 0

pub data ProcessState : Type 0 where
  starting : ProcessState
  running : ProcessState
  stopping : ProcessState
  stopped : ProcessState
  dead : ProcessState

pub record ProcessInfo : Type 0 where
  pub process_id : ℕ
  pub state : ProcessState
  pub last_heartbeat_ns : ℕ
  pub start_time_ns : ℕ
  pub process_name : List ℕ
  pub native_pid : ℕ

-- `ProcessInfo()`
abbrev pub blank_process : ProcessInfo
blank_process = record {
  process_id = invalid_process_id;
  state = stopped;
  last_heartbeat_ns = 0;
  start_time_ns = 0;
  process_name = [];
  native_pid = 0;
}

unfoldable pub update_heartbeat : ProcessInfo → ℕ → ProcessInfo
update_heartbeat p now = record p { last_heartbeat_ns = now }

-- On 64 unsigned bits
unfoldable pub is_dead : ProcessInfo → ℕ → ℕ → Bool
is_dead p current_ns timeout_ns = ltb timeout_ns (sub64 current_ns p.last_heartbeat_ns)

pub record ProcessRegistry : Type 0 where
  pub process_count : ℕ
  pub processes : List ProcessInfo

unfoldable pub initialize_processes : ProcessRegistry
initialize_processes = record {
  process_count = 0;
  processes = replicate max_processes blank_process;
}

-- What `register_process` writes to slot `i`.
unfoldable pub fill_process : ℕ → Option (List ℕ) → ℕ → ℕ → ProcessInfo → ProcessInfo
fill_process i name now pid p = record (update_heartbeat p now) {
  process_id = i + 1;
  state = starting;
  start_time_ns = now;
  process_name = rename name p.process_name;
  native_pid = pid;
}

-- Its loop from slot `i` on: the first free slot is filled.
unfoldable pub take_slot :
    ℕ → Option (List ℕ) → ℕ → ℕ → List ProcessInfo → Option (ℕ × List ProcessInfo)
take_slot i name now pid [] = none
take_slot i name now pid (p ∷ ps) =
    let rest = take_slot (i + 1) name now pid ps in
    if p.process_id == invalid_process_id
    then some (i, fill_process i name now pid p ∷ ps)
    else elim rest [ none ↦ none | some (j, qs) ↦ some (j, p ∷ qs) ]

unfoldable pub register_process : ProcessRegistry → Option (List ℕ) → ℕ → ℕ → ℤ × ProcessRegistry
register_process r name now pid = elim (take_slot 0 name now pid r.processes) [
  | none ↦ (minus_one, r)
  | some (i, ps) ↦ (to_i32 i, record { process_count = add32 r.process_count 1; processes = ps })
]

abbrev pub process_at : ProcessRegistry → ℕ → ProcessInfo
process_at r i = get_or r.processes i blank_process

unfoldable pub unregister_process : ProcessRegistry → ℤ → ProcessRegistry
unregister_process r slot =
    if is_negative slot || ge_i32 slot (pos max_processes)
    then r
    else if not ((process_at r (index slot)).process_id == invalid_process_id)
    then record {
      process_count = sub32 r.process_count 1;
      processes =
          set r.processes (index slot) (record (process_at r (index slot)) {
            process_id = invalid_process_id;
            state = stopped;
          });
    }
    else r
