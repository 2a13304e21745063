-- ===== src/Runtime.antt =====
-- multiqueue-shm/core/include/multiqueue/runtime.hpp: the blocks of a process, after `initialize`. A
-- block object is known by its address, a number; the registries are those of the shared memory. What
-- a subclass overrides (`initialize`, `start`, `stop`) is a parameter, as is the clock; its `cleanup`
-- is called on objects that are destroyed next, and the message bus's `start` and `stop` do nothing.
pub mod Register
pub mod Create
pub mod Clash
pub mod Attach
pub mod Connect
use mergeshare.Prelude.{
  ℕ, ◌-◌, Bool, true, false, not, ◌||◌, ◌&&◌, List, [], ◌∷◌, ◌++◌, Option, none, some, ◌==◌,
  if◌then◌else◌, set, add32, length, ℤ, is_negative,
}
use mergeshare.Prelude.Dict.{lookup, insert, erase, nat_keys}
use mergeshare.Blocks.{BlockRegistry, invalid_block_id}
use mergeshare.Blocks
use mergeshare.Connections.{ConnectionRegistry, create_connection}
use mergeshare.Processes.{ProcessRegistry, unregister_process}
use mergeshare.Refs.{allocator_refs}
use mergeshare.PortQueue.{Queue}
use mergeshare.PortQueue
use mergeshare.Block.{Block, Port, PortTable, set_id, get_port_by_name}
use mergeshare.Block.Queues.{Queues, disconnect, set_input_queue, set_output_queue}
use mergeshare.Scheduler.{Scheduler}
use mergeshare.Scheduler

-- The members, with the objects of the process's memory, the static counter of
-- `allocate_block_id`, and the registries that `registry_` points to
pub record Runtime : Type 0 where
  pub initialized : Bool
  pub running : Bool
  pub process_id : ℕ
  pub process_slot : ℤ
  pub block_map : List (ℕ × ℕ)
  pub objects : ℕ → Option Block
  pub port_queues : Queues
  pub scheduler : Scheduler
  pub next_block_id : ℕ
  pub block_registry : BlockRegistry
  pub connections : ConnectionRegistry
  pub processes : ProcessRegistry

abbrev pub put : (ℕ → Option Block) → ℕ → Option Block → ℕ → Option Block
put objects p b = λ q. if q == p then b else objects q

unfoldable pub get_block : Runtime → ℕ → Option ℕ
get_block rt id = lookup nat_keys id rt.block_map

-- The destructors of a block's input ports (port.hpp), on queues that have no allocator
unfoldable pub disconnect_all : List Port → Queues → Queues
disconnect_all [] qs = qs
disconnect_all (p ∷ ports) qs = disconnect_all ports (disconnect allocator_refs qs none p).0

-- The object at `p` is destroyed.
unfoldable pub destroy_block : Runtime → ℕ → Runtime
destroy_block rt p = record rt {
  objects = put rt.objects p none;
  port_queues = elim (rt.objects p) [
    | none ↦ rt.port_queues
    | some b ↦ disconnect_all b.inputs.ports rt.port_queues
  ];
}

-- `blocks_[id] = std::move(block)`: the object that stood there is destroyed.
unfoldable pub displaced : Runtime → ℕ → Runtime
displaced rt id = elim (lookup nat_keys id rt.block_map) [ none ↦ rt | some q ↦ destroy_block rt q ]

unfoldable pub store_block : Runtime → ℕ → ℕ → Block → Runtime
store_block rt id p b = record rt {
  block_map = insert nat_keys id p rt.block_map;
  objects = put (displaced rt id).objects p (some b);
  port_queues = (displaced rt id).port_queues;
}

-- `allocate_block_id`
unfoldable pub allocate_block_id : Runtime → Runtime × ℕ
allocate_block_id rt = (record rt { next_block_id = add32 rt.next_block_id 1 }, rt.next_block_id)

-- `create_block`: `built` is what the constructor makes, at address `p`, or `none` if it throws.
unfoldable pub create_block : Runtime → Option Block → ℕ → Runtime × Option ℕ
create_block rt built p =
    let (rt', id) = allocate_block_id rt in
    if not rt.initialized || (id == invalid_block_id)
    then ((if rt.initialized then rt' else rt), none)
    else elim built [
      | none ↦ (rt', none)
      | some b ↦
          let stored = store_block rt' id p (set_id b id) in
          (
            record stored {
              scheduler = (Scheduler.register_block stored.scheduler (some (id, p))).0;
            },
            some p,
          )
    ]

unfoldable pub remove_block : Runtime → ℕ → Runtime
remove_block rt id = elim (lookup nat_keys id rt.block_map) [
  | none ↦ rt
  | some p ↦ record (destroy_block rt p) {
    scheduler = Scheduler.unregister_block rt.scheduler id;
    block_map = erase nat_keys id rt.block_map;
  }
]

-- What a block's class does
pub record Behaviour : Type 0 where
  pub initialize : Block → Block × Bool
  pub start : Block → Block × Bool
  pub stop : Block → Block

module _ (class : Behaviour) where
  -- The block given is at address `p`, its ports have no queue yet; if it is not kept, it is
  -- destroyed.
  unfoldable pub register_block : Runtime → Option Block → ℕ → ℕ → Runtime × ℕ
  register_block rt none p now = (rt, invalid_block_id)
  register_block rt (some b) p now =
      let (id, r) =
        Blocks.register_block rt.block_registry (some b.name) b.block_type rt.process_id now in
      let (b', ready) = class.initialize (set_id b id) in
      if not rt.initialized || (id == invalid_block_id)
      then (rt, invalid_block_id)
      else if not ready
      then (record rt { block_registry = Blocks.unregister_block r id }, invalid_block_id)
      else (store_block (record rt { block_registry = r }) id p b', id)

  -- The loop of `start`; false if some block does not start.
  unfoldable pub start_blocks : List (ℕ × ℕ) → Runtime → Runtime × Bool
  start_blocks [] rt = (rt, true)
  start_blocks ((id, p) ∷ blocks) rt = elim (rt.objects p) [
    | none ↦ start_blocks blocks rt
    | some b ↦
        let (b', started) = class.start b in
        let rt' = record rt { objects = put rt.objects p (some b') } in
        let rest = start_blocks blocks (record rt' {
          scheduler = (Scheduler.register_block rt.scheduler (some (b'.block_id, p))).0;
        }) in
        if started then rest else (rt', false)
  ]

  unfoldable pub start : Runtime → Runtime × Bool
  start rt =
      let (rt', started) = start_blocks rt.block_map rt in
      let (s, scheduled) = Scheduler.start rt'.scheduler in
      if not rt.initialized || rt.running
      then (rt, false)
      else if not started
      then (rt', false)
      else (record rt' { scheduler = s; running = scheduled }, scheduled)

  unfoldable pub stop_blocks : List (ℕ × ℕ) → (ℕ → Option Block) → ℕ → Option Block
  stop_blocks [] objects = objects
  stop_blocks ((id, p) ∷ blocks) objects =
      stop_blocks blocks
        (elim (objects p) [ none ↦ objects | some b ↦ put objects p (some (class.stop b)) ])

  unfoldable pub stop : Runtime → Runtime
  stop rt =
      if rt.running
      then record rt {
        scheduler = Scheduler.stop rt.scheduler;
        objects = stop_blocks rt.block_map rt.objects;
        running = false;
      }
      else rt

  -- The loop of `shutdown` over the blocks; `clear()` destroys the objects.
  unfoldable pub unregister_all : List (ℕ × ℕ) → (ℕ → Option Block) → BlockRegistry → BlockRegistry
  unregister_all [] objects r = r
  unregister_all ((id, p) ∷ blocks) objects r = elim (objects p) [
    | none ↦ unregister_all blocks objects r
    | some b ↦ unregister_all blocks objects (Blocks.unregister_block r b.block_id)
  ]

  unfoldable pub destroy_all : List (ℕ × ℕ) → Runtime → Runtime
  destroy_all [] rt = rt
  destroy_all ((id, p) ∷ blocks) rt = destroy_all blocks (destroy_block rt p)

  unfoldable pub shutdown : Runtime → Runtime
  shutdown rt =
      let s = stop rt in
      if not rt.initialized then s else record s {
        block_registry = unregister_all s.block_map s.objects s.block_registry;
        block_map = [];
        objects = (destroy_all s.block_map s).objects;
        port_queues = [];
        scheduler = record (Scheduler.stop s.scheduler) { blocks = [] };
        processes =
            if is_negative s.process_slot
            then s.processes
            else unregister_process s.processes s.process_slot;
        initialized = false;
      }

-- A port that a pointer to it changed, back in its table
unfoldable pub put_port : PortTable → Port → PortTable
put_port t p = record t { ports = set t.ports (p.port_id - 1) p }

-- An early return on a null pointer
infixl 5 ◌>>=◌
abbrev pub ◌>>=◌ : {A B : Type 0} → Option A → (A → Option B) → Option B
none >>= f = none
some a >>= f = f a

-- Both ports of a connection, and the addresses of their blocks
unfoldable pub find_ports : Runtime → ℕ → List ℕ → ℕ → List ℕ → Option ((ℕ × Port) × (ℕ × Port))
find_ports rt src src_port dst dst_port = do
  p ← get_block rt src
  q ← get_block rt dst
  b ← rt.objects p
  c ← rt.objects q
  out_port ← get_port_by_name b.outputs src_port
  in_port ← get_port_by_name c.inputs dst_port
  some ((p, out_port), (q, in_port))

unfoldable pub put_output : (ℕ → Option Block) → ℕ → Port → ℕ → Option Block
put_output objects p port = elim (objects p) [
  | none ↦ objects
  | some b ↦ put objects p (some (record b { outputs = put_port b.outputs port }))
]

unfoldable pub put_input : (ℕ → Option Block) → ℕ → Port → ℕ → Option Block
put_input objects p port = elim (objects p) [
  | none ↦ objects
  | some b ↦ put objects p (some (record b { inputs = put_port b.inputs port }))
]

-- `connect`, on queues that have no allocator
module _ (shm_open : ℕ → Bool) (header_size now : ℕ) where
  -- With the queue made: both ports get it, and the connection is registered.
  unfoldable pub attach : Runtime → ℕ → ℕ → ℕ × Port → ℕ × Port → Queue → Runtime
  attach rt src dst (p, out_port) (q, in_port) queue =
      let n = length rt.port_queues in
      let (qs, a, joined) =
        set_input_queue allocator_refs (rt.port_queues ++ some queue ∷ []) none in_port (some n) in
      record rt {
        port_queues = qs;
        objects = put_input (put_output rt.objects p (set_output_queue out_port (some n))) q joined;
        connections =
            (create_connection rt.connections src out_port.port_id dst in_port.port_id now).1;
      }

  unfoldable pub connect : Runtime → ℕ → List ℕ → ℕ → List ℕ → Runtime × Bool
  connect rt src src_port dst dst_port =
      if not rt.initialized then (rt, false) else elim (find_ports rt src src_port dst dst_port) [
        | none ↦ (rt, false)
        | some (out, inp) ↦
            elim (PortQueue.create shm_open header_size out.1.port_id inp.1.config.queue_capacity) [
              | none ↦ (rt, false)
              | some queue ↦ (attach rt src dst out inp queue, true)
            ]
      ]
