-- ===== src/Block.antt =====
-- multiqueue-shm/core/include/multiqueue/block.hpp and port.hpp: a block with its state and its named
-- ports. What a subclass overrides (initialize, start, work) is a parameter where it is called; the
-- calls on buffers are in the children.
pub mod Ports
pub mod Buffers
pub mod Queues
pub mod Inputs
pub mod Sink
use mergeshare.Prelude.{
  ℕ, zero, suc, ◌+◌, ◌-◌, Bool, true, false, List, [], ◌∷◌, ◌++◌, Option, none, some, length, ltb,
  if◌then◌else◌,
}
use mergeshare.Prelude.Dict.{lookup, insert, text_keys}
use mergeshare.PortQueue.{invalid_consumer_id}
use mergeshare.Blocks.{BlockType, BlockState, processing, created, running, stopped}

-- `PortType`, `SyncMode` (types.hpp) and the configuration of a port
pub data PortType : Type 0 where
  input : PortType
  output : PortType

pub data SyncMode : Type 0 where
  async : SyncMode
  sync : SyncMode

pub record PortConfig : Type 0 where
  pub name : List ℕ
  pub port_type : PortType
  pub sync_mode : SyncMode
  pub queue_capacity : ℕ

-- A port knows a queue by its number in a store of queues, and its consumer id in it.
pub record Port : Type 0 where
  pub port_id : ℕ
  pub config : PortConfig
  pub queue : Option ℕ
  pub connected : Bool
  pub consumer_id : ℕ

-- The constructors `InputPort(...)` and `OutputPort(...)`
abbrev pub new_port : PortType → ℕ → PortConfig → Port
new_port kind id config = record {
  port_id = id;
  config = record config { port_type = kind };
  queue = none;
  connected = false;
  consumer_id = invalid_consumer_id;
}

-- One direction's ports: `input_ports_` and `input_port_map_`, or those of the outputs.
pub record PortTable : Type 0 where
  pub ports : List Port
  pub port_map : List (List ℕ × ℕ)

abbrev pub no_ports : PortTable
no_ports = record { ports = []; port_map = [] }

pub record Block : Type 0 where
  pub block_id : ℕ
  pub name : List ℕ
  pub block_type : BlockType
  pub state : BlockState
  pub inputs : PortTable
  pub outputs : PortTable

-- `Block(config, allocator)`
abbrev pub new_block : List ℕ → BlockType → Block
new_block name kind = record {
  block_id = 0;
  name = name;
  block_type = kind;
  state = created;
  inputs = no_ports;
  outputs = no_ports;
}

unfoldable pub set_id : Block → ℕ → Block
set_id b id = record b { block_id = id }

unfoldable pub set_state : Block → BlockState → Block
set_state b s = record b { state = s }

-- `start` and `stop` of the base class
unfoldable pub start : Block → Block × Bool
start b = (record b { state = running }, true)

unfoldable pub stop : Block → Block
stop b = record b { state = stopped }

-- `add_input_port` and `add_output_port`
unfoldable pub add_port : PortType → PortTable → PortConfig → PortTable × ℕ
add_port kind t config =
    let port_id = length t.ports + 1 in
    (
      record {
        ports = t.ports ++ new_port kind port_id config ∷ [];
        port_map = insert text_keys config.name port_id t.port_map;
      },
      port_id,
    )

abbrev pub port_at : List Port → ℕ → Option Port
port_at [] i = none
port_at (p ∷ ps) zero = some p
port_at (p ∷ ps) (suc i) = port_at ps i

-- `get_input_port(index)` and `get_output_port(index)`
unfoldable pub get_port : PortTable → ℕ → Option Port
get_port t i = if ltb i (length t.ports) then port_at t.ports i else none

-- The same by name
unfoldable pub get_port_by_name : PortTable → List ℕ → Option Port
get_port_by_name t name = elim (lookup text_keys name t.port_map) [
  | none ↦ none
  | some id ↦ port_at t.ports (id - 1)
]
