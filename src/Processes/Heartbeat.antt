-- ===== src/Processes/Heartbeat.antt =====
-- global_registry.hpp: when a process is taken for dead.
use mergeshare.Prelude.{ℕ, ◌+◌, ◌-◌, ◌<◌, ◌≤◌, ◌≡◌, ◌↔◌, true, arith, u64_mod}
use mergeshare.Processes.{ProcessInfo, is_dead, update_heartbeat}

-- For a heartbeat that is not later than the given time, `is_dead` holds exactly when more than the
-- timeout went by since.
pub is_dead_iff :
    (p : ProcessInfo) (current timeout : ℕ)
    → p.last_heartbeat_ns ≤ current
    → current < u64_mod
    → (is_dead p current timeout ≡ true) ↔ (p.last_heartbeat_ns + timeout < current)
unfolding is_dead
is_dead_iff p current timeout past small = ground arith

-- A process whose heartbeat is later than the given time, as when it beat after the time was read,
-- is taken for dead, unless the timeout is within that difference of 2^64.
pub is_dead_early :
    (p : ProcessInfo) (now current timeout : ℕ)
    → current < now
    → now < u64_mod
    → timeout + (now - current) < u64_mod
    → is_dead (update_heartbeat p now) current timeout ≡ true
unfolding is_dead update_heartbeat
is_dead_early p now current timeout late small short = ground arith
