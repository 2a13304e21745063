-- ===== src/Blocks.antt =====
-- multiqueue-shm/core/include/multiqueue/global_registry.hpp: `BlockInfo` and `BlockRegistry`, the
-- slots in which the processes announce their blocks. Each method holds `mutex`, so it is one step.
pub mod Ids
pub mod Find
pub mod Misuse
use mergeshare.Prelude.{
  ℕ, ◌+◌, List, [], ◌∷◌, Option, none, some, ◌==◌, if◌then◌else◌, replicate, add32, sub32, ℤ,
  minus_one, to_i32,
}
use mergeshare.Control.{copy_text}
use mergeshare.Slots.{rewrite_first}

-- INVALID_BLOCK_ID
abbrev pub invalid_block_id : ℕ
invalid_block_id = 0

-- MAX_BLOCKS
abbrev pub max_blocks : ℕ
max_blocks = 256

-- MAX_PORTS_PER_BLOCK
abbrev pub max_ports_per_block : ℕ
max_ports_per_block = 16

pub data BlockType : Type 0 where
  source : BlockType
  processing : BlockType
  sink : BlockType

pub data BlockState : Type 0 where
  created : BlockState
  registered : BlockState
  ready : BlockState
  running : BlockState
  paused : BlockState
  stopped : BlockState
  error : BlockState

pub record BlockInfo : Type 0 where
  pub block_id : ℕ
  pub block_type : BlockType
  pub state : BlockState
  pub owner_process : ℕ
  pub block_name : List ℕ
  pub create_time_ns : ℕ
  pub input_port_count : ℕ
  pub output_port_count : ℕ
  pub input_ports : List ℕ
  pub output_ports : List ℕ

abbrev pub block_id_of : BlockInfo → ℕ
block_id_of b = b.block_id

-- `BlockInfo()`
abbrev pub blank_block : BlockInfo
blank_block = record {
  block_id = invalid_block_id;
  block_type = processing;
  state = created;
  owner_process = 0;
  block_name = [];
  create_time_ns = 0;
  input_port_count = 0;
  output_port_count = 0;
  input_ports = replicate max_ports_per_block 0;
  output_ports = replicate max_ports_per_block 0;
}

pub record BlockRegistry : Type 0 where
  pub block_count : ℕ
  pub next_block_id : ℕ
  pub blocks : List BlockInfo

unfoldable pub initialize_blocks : BlockRegistry
initialize_blocks = record {
  block_count = 0;
  next_block_id = 1;
  blocks = replicate max_blocks blank_block;
}

-- A slot's name after `if (name) strncpy(...)`: a null name leaves what stood there.
unfoldable pub rename : Option (List ℕ) → List ℕ → List ℕ
rename none old = old
rename (some name) old = copy_text 63 name

unfoldable pub fill_block : ℕ → Option (List ℕ) → BlockType → ℕ → ℕ → BlockInfo → BlockInfo
fill_block bid name kind process now b = record b {
  block_id = bid;
  block_type = kind;
  state = registered;
  owner_process = process;
  create_time_ns = now;
  block_name = rename name b.block_name;
}

unfoldable pub register_block :
    BlockRegistry → Option (List ℕ) → BlockType → ℕ → ℕ → ℕ × BlockRegistry
register_block r name kind process now =
    let bid = r.next_block_id in
    elim (rewrite_first block_id_of invalid_block_id (fill_block bid name kind process now)
      r.blocks) [
        | none ↦ (invalid_block_id, r)
        | some bs ↦ (
          bid,
          record { block_count = add32 r.block_count 1; next_block_id = add32 bid 1; blocks = bs },
        )
      ]

unfoldable pub clear_block : BlockInfo → BlockInfo
clear_block b = record b { block_id = invalid_block_id; state = stopped }

unfoldable pub unregister_block : BlockRegistry → ℕ → BlockRegistry
unregister_block r id = elim (rewrite_first block_id_of id clear_block r.blocks) [
  | none ↦ r
  | some bs ↦ record r { block_count = sub32 r.block_count 1; blocks = bs }
]

-- The loop of `find_slot_by_id` from slot `i` on.
unfoldable pub find_block_from : ℕ → ℕ → List BlockInfo → ℤ
find_block_from id i [] = minus_one
find_block_from id i (b ∷ bs) =
    let rest = find_block_from id (i + 1) bs in if b.block_id == id then to_i32 i else rest

unfoldable pub find_slot_by_id : BlockRegistry → ℕ → ℤ
find_slot_by_id r id = find_block_from id 0 r.blocks
