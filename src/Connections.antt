-- ===== src/Connections.antt =====
-- multiqueue-shm/core/include/multiqueue/global_registry.hpp: `ConnectionInfo` and
-- `ConnectionRegistry`, which block's port is connected to which. Each method holds `mutex`, so it is
-- one step.
pub mod Ids
use mergeshare.Prelude.{
  ℕ, Bool, true, false, List, [], ◌∷◌, Option, none, some, replicate, add32, sub32, add64,
}
use mergeshare.Slots.{rewrite_first}

-- INVALID_CONNECTION_ID
abbrev pub invalid_connection_id : ℕ
invalid_connection_id = 0

-- INVALID_PORT_ID and INVALID_BLOCK_ID
abbrev pub invalid_port_id : ℕ
invalid_port_id = 0

-- MAX_CONNECTIONS
abbrev pub max_connections : ℕ
max_connections = 1024

pub record ConnectionInfo : Type 0 where
  pub connection_id : ℕ
  pub src_block : ℕ
  pub src_port : ℕ
  pub dst_block : ℕ
  pub dst_port : ℕ
  pub active : Bool
  pub create_time_ns : ℕ

abbrev pub connection_id_of : ConnectionInfo → ℕ
connection_id_of c = c.connection_id

-- `ConnectionInfo()`
abbrev pub blank_connection : ConnectionInfo
blank_connection = record {
  connection_id = invalid_connection_id;
  src_block = 0;
  src_port = invalid_port_id;
  dst_block = 0;
  dst_port = invalid_port_id;
  active = false;
  create_time_ns = 0;
}

-- `next_connection_id` has 64 bits, `connection_count` 32.
pub record ConnectionRegistry : Type 0 where
  pub connection_count : ℕ
  pub next_connection_id : ℕ
  pub connections : List ConnectionInfo

unfoldable pub initialize_connections : ConnectionRegistry
initialize_connections = record {
  connection_count = 0;
  next_connection_id = 1;
  connections = replicate max_connections blank_connection;
}

unfoldable pub fill_connection : ℕ → ℕ → ℕ → ℕ → ℕ → ℕ → ConnectionInfo → ConnectionInfo
fill_connection cid src_block src_port dst_block dst_port now c = record {
  connection_id = cid;
  src_block = src_block;
  src_port = src_port;
  dst_block = dst_block;
  dst_port = dst_port;
  active = true;
  create_time_ns = now;
}

unfoldable pub create_connection : ConnectionRegistry → ℕ → ℕ → ℕ → ℕ → ℕ → ℕ × ConnectionRegistry
create_connection r src_block src_port dst_block dst_port now =
    let cid = r.next_connection_id in
    elim (rewrite_first connection_id_of invalid_connection_id
      (fill_connection cid src_block src_port dst_block dst_port now) r.connections) [
        | none ↦ (invalid_connection_id, r)
        | some cs ↦ (
          cid,
          record {
            connection_count = add32 r.connection_count 1;
            next_connection_id = add64 cid 1;
            connections = cs;
          },
        )
      ]

unfoldable pub clear_connection : ConnectionInfo → ConnectionInfo
clear_connection c = record c { connection_id = invalid_connection_id; active = false }

unfoldable pub delete_connection : ConnectionRegistry → ℕ → ConnectionRegistry
delete_connection r id = elim (rewrite_first connection_id_of id clear_connection r.connections) [
  | none ↦ r
  | some cs ↦ record r { connection_count = sub32 r.connection_count 1; connections = cs }
]
