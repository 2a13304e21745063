-- ===== src/Tests/Runtime.antt =====
-- A runtime on fresh registries, where another process may have a block.
use mergeshare.Prelude.{true, false, none, [], ◌∷◌, pos}
use mergeshare.Blocks.{BlockRegistry, processing, initialize_blocks}
use mergeshare.Blocks
use mergeshare.Connections.{initialize_connections}
use mergeshare.Processes.{initialize_processes}
use mergeshare.Block.{Block, new_block}
use mergeshare.Block
use mergeshare.Scheduler.{new_scheduler}
use mergeshare.Runtime.{Runtime, Behaviour, register_block}

-- The methods of the base class
abbrev class : Behaviour
class = record { initialize = λ b. (b, true); start = Block.start; stop = Block.stop }

abbrev runtime : Runtime
runtime = record {
  initialized = true;
  running = false;
  process_id = 1;
  process_slot = pos 0;
  block_map = [];
  objects = λ p. none;
  port_queues = [];
  scheduler = new_scheduler (record { num_threads = 2; idle_sleep_ms = 1 }) 8;
  next_block_id = 1;
  block_registry = initialize_blocks;
  connections = initialize_connections;
  processes = initialize_processes;
}

abbrev block : Block
block = new_block (98 ∷ []) processing

-- Process 7 registered a block, which got id 1.
abbrev others : BlockRegistry
others = (Blocks.register_block initialize_blocks none processing 7 800).1

abbrev guest : Runtime
guest = record runtime { block_registry = others }
