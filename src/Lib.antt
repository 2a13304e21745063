-- ===== src/Lib.antt =====
-- A verification library for MultiQueue-SHM, the shared-memory buffers and queues between blocks of
-- different processes. All paths are below multiqueue-shm/core/include/multiqueue/.
--
-- How the parts work together: a process allocates a buffer from a pool of fixed-size blocks
-- (buffer_pool.hpp) through its allocator (buffer_allocator.hpp), which records it in the shared
-- metadata table (buffer_metadata.hpp) with a reference count. Handles (buffer_ptr.hpp) own one
-- reference each. Port queues (port_queue.hpp) broadcast buffer ids to up to 16 consumers, and count
-- references on the way. Ring queues (ring_queue.hpp, with the control block of metadata.hpp and the
-- settings of config.hpp) broadcast elements by value to up to 32 consumers without a lock.
-- Processes announce themselves, their blocks and the connections of these in registries of slots
-- (global_registry.hpp). Inside a process, blocks (block.hpp) have ports (port.hpp) on port queues; the
-- runtime (runtime.hpp) keeps the blocks, connects them, and has a scheduler (scheduler.hpp) run them;
-- a message bus (msgbus.hpp) carries messages. A merged view (timestamp_sync.hpp) reads several ring
-- queues in the order of their timestamps.
--
-- Prelude    shared names, tests on numbers, C arrays as lists, words of 32 and 64 bits, dictionaries
-- Window     the items of a ring between a read and a write position
-- FreeList   the array of links that pools and the metadata table keep: link_from is the loop that
--            sets it up, Chain its reading as a list, Partition the free and the held indices
-- Pool       BufferPool: create, open_pool (open), allocate_block, free_block, get_block_data,
--            get_block_offset. Refine: a stack of free indices; Ownership: any sequence of calls;
--            Layout: addresses; Misuse: what happens outside the contract
-- Timestamp  Timestamp and TimeRange of timestamp.hpp
-- Meta       BufferMetadataTable: initialize, allocate_slot, free_slot, find_slot_by_id. Find: the
--            search; Slots: the invariant IsTable; Publish: writes that keep it
-- Allocator  SharedBufferAllocator, one definition for each method. Counts: reference counts;
--            Allocate, Deallocate: the life of a buffer; Reclaim: what the owners of other buffers see
-- Refs       the interfaces RefCounter and Reclaimer that queues and handles use, and the allocator
--            as an instance of both
-- BufferPtr  the handles of a process as a list. Balance: counts against handles; Calls: every call
-- PortQueue  PortQueue; Counted has the methods that count references. Valid: the invariant;
--            Methods: it is kept; Broadcast, Promise, Push: the methods against one FIFO per consumer;
--            Delivery: whole runs; Leave: references given back
-- Config     QueueConfig. PowerOfTwo: rounding a capacity up
-- Control    QueueMetadata, ConsumerRegistry, ControlBlock and ElementHeader of metadata.hpp
-- RingQueue  RingQueue: State, Open (constructor, joining, leaving), Push, Pop. Valid: the invariant;
--            Broadcast, Produce, Consume, Join: the methods against one FIFO per consumer; Race: a
--            consumer between the two phases of a push
-- Merge      MergedQueueView over queues that fill the interface PopQueue. Select, Refill: one fetch
--            and one choice; Sorted, Start: a view whose queues are closed; Waiting, Timeout: next
--            with other processes writing; Rings: ring queues fill the interface
-- Slots      the loops over slot arrays, and how many slots hold an id
-- Blocks     BlockInfo and BlockRegistry of global_registry.hpp. Ids: ids and the count; Find:
--            the search; Misuse: the id that stands for none
-- Processes  ProcessInfo and ProcessRegistry. Slots: register_process, unregister_process; Heartbeat:
--            is_dead
-- Connections  ConnectionInfo and ConnectionRegistry. Ids: ids and the count
-- MsgBus     MsgBus. Topics: subscriptions; Inbox: what is delivered and received
-- Block      Block and Port. Ports: adding and finding ports; Buffers: allocate_output_buffer;
--            Queues: set_queue, disconnect, read and the getters of ports; Inputs: consume_input and
--            produce_output; Sink: NullSink
-- Scheduler  Scheduler. Pass: one pass of worker_thread over the blocks; Worker: all its passes; Table:
--            the registered blocks and the threads
-- Runtime    Runtime once initialized. Register: register_block; Create: create_block and
--            remove_block; Clash: their ids next to each other; Attach, Connect: connect
-- Tests      runs of the definitions, and theorems at concrete inputs
--
-- How state is modelled: a shared segment is a record, and a method a function on it. An object
-- whose header pointer may be null is an Option. What is under a lock is one step; a wait on a
-- condition gives the lock up, so push takes the states that it finds on waking as a list. In the
-- ring queue, try_push takes both the state at its loads and the state at its compare-and-exchange.
-- What a subclass of Block overrides is a parameter, as is what other processes do to the queues of a
-- merged view while it waits. Objects of one process are known by number, in a map from addresses.
-- Unsigned words wrap round (add32, sub64 and so on); a free-list link is an integer. Boost's calls
-- are parameters: whether a segment of some size can be made, and what is found under a name. The
-- clock's values are arguments.
--
-- Fuel: only the loop of round_up_capacity_to_power_of_two is on fuel, and 64 tests are enough where
-- it ends. Loops that wait are functions on the list of what they find.
--
-- Bounds: theorems on queues ask that a 64-bit position has not come within a capacity of wrapping,
-- theorems on the table that the next id has not; both are stated where they are used.
--
-- Not modelled: conversions of timestamps to floating point and text; PortQueue::open; the getters
-- that only read a field; RingQueue::get_stats; reordering of atomic accesses by the hardware; the
-- methods of the pool registry; the null source and the amplifier;
-- Runtime::initialize, which goes through a pointer that nothing sets; message headers; the managers
-- of shared memory and queues, the logger, and the bindings.
pub mod Prelude
pub mod Window
pub mod FreeList
pub mod MsgBus
pub mod Pool
pub mod Slots
pub mod Timestamp
pub mod Merge
pub mod Meta
pub mod Allocator
pub mod Block
pub mod Scheduler
pub mod Blocks
pub mod Refs
pub mod PortQueue
pub mod BufferPtr
pub mod Config
pub mod Connections
pub mod Control
pub mod Processes
pub mod RingQueue
pub mod Runtime
pub mod Tests
