-- ===== src/Tests/Registries.antt =====
-- The registries of processes and connections: one joins, and leaves.
use mergeshare.Prelude.{ℕ, ◌+◌, ◌<◌, ◌≡◌, ◌≢◌, ◌⊎◌, inl, inr, refl, none, arith, pos, minus_one}
use mergeshare.Processes.{
  ProcessRegistry, initialize_processes, register_process, unregister_process, take_slot,
  fill_process, process_at, max_processes, update_heartbeat,
}
use mergeshare.Processes.Slots.{
  IsProcesses, Starts, initialize_processes-IsProcesses, register_process-IsProcesses,
}
use mergeshare.Connections.{ConnectionRegistry, initialize_connections, create_connection}
use mergeshare.Connections.Ids.{
  IsLinked, initialize_connections-IsLinked, create_connection-IsLinked,
}

abbrev joined : ProcessRegistry
joined = (register_process initialize_processes none 500 42).1

joined-slot : (register_process initialize_processes none 500 42).0 ≡ pos 0
unfolding register_process initialize_processes take_slot
joined-slot = refl

joined-count : joined.process_count ≡ 1
unfolding register_process initialize_processes take_slot
joined-count = refl

left-count : (unregister_process joined (pos 0)).process_count ≡ 0
unfolding register_process unregister_process initialize_processes take_slot fill_process
    update_heartbeat
left-count = refl

initial-processes : initialize_processes.process_count ≡ 0
unfolding initialize_processes
initial-processes = refl

register_process-IsProcesses_example :
    ((initialize_processes.process_count ≡ max_processes)
      × (register_process initialize_processes none 500 42 ≡ (minus_one, initialize_processes)))
    ⊎ ((i : ℕ) × (i < max_processes)
        × ((process_at initialize_processes i).process_id ≡ 0)
        × ((register_process initialize_processes none 500 42).0 ≡ pos i)
        × Starts none 500 42 (process_at joined i) i
        × ((j : ℕ) → j ≢ i → process_at joined j ≡ process_at initialize_processes j)
        × (joined.process_count ≡ initialize_processes.process_count + 1)
        × IsProcesses joined)
register_process-IsProcesses_example =
    register_process-IsProcesses none 500 42 initialize_processes initialize_processes-IsProcesses

joined-IsProcesses : IsProcesses joined
joined-IsProcesses =
    elim (register_process-IsProcesses none 500 42 initialize_processes
      initialize_processes-IsProcesses) [
        | inl (full, _) ↦ absurd (omega (arith, initial-processes))
        | inr (_, _, _, _, _, _, _, ok) ↦ ok
      ]

abbrev connected : ConnectionRegistry
connected = (create_connection initialize_connections 1 1 2 1 900).1

initial-connections :
    (initialize_connections.connection_count ≡ 0) × (initialize_connections.next_connection_id ≡ 1)
unfolding initialize_connections
initial-connections = (refl, refl)

connected-IsLinked : IsLinked connected
connected-IsLinked =
    elim (create_connection-IsLinked initialize_connections 1 1 2 1 900
      initialize_connections-IsLinked (omega (arith, initial-connections))) [
        | inl (full, _) ↦ absurd (omega (arith, initial-connections))
        | inr (_, _, _, _, ok) ↦ ok
      ]
