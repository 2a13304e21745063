-- ===== src/Tests/Wiring.antt =====
-- A runtime with one block that has an output port, and two blocks that have an input port each.
use mergeshare.Prelude.{ℕ, Bool, true, false, some, [], ◌∷◌, pos, if◌then◌else◌, ◌==◌}
use mergeshare.Blocks.{processing, initialize_blocks}
use mergeshare.Connections.{initialize_connections}
use mergeshare.Processes.{initialize_processes}
use mergeshare.Block.{
  Block, PortTable, PortConfig, PortType, input, output, async, no_ports, new_block, add_port,
}
use mergeshare.Scheduler.{new_scheduler}
use mergeshare.Runtime.{Runtime}

abbrev port : PortConfig
port = record { name = 97 ∷ []; port_type = output; sync_mode = async; queue_capacity = 8 }

abbrev one_port : PortType → PortTable
one_port kind = (add_port kind no_ports port).0

abbrev sender : Block
sender = record (new_block [] processing) { outputs = one_port output }

abbrev receiver : Block
receiver = record (new_block [] processing) { inputs = one_port input }

abbrev runtime : Runtime
runtime = record {
  initialized = true;
  running = false;
  process_id = 1;
  process_slot = pos 0;
  block_map = (1, 10) ∷ (2, 20) ∷ (3, 30) ∷ [];
  objects = λ p. if p == 10 then some sender else some receiver;
  port_queues = [];
  scheduler = new_scheduler (record { num_threads = 2; idle_sleep_ms = 1 }) 8;
  next_block_id = 4;
  block_registry = initialize_blocks;
  connections = initialize_connections;
  processes = initialize_processes;
}

abbrev opens : ℕ → Bool
opens size = true
