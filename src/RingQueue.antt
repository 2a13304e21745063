-- ===== src/RingQueue.antt =====
-- multiqueue-shm/core/include/multiqueue/ring_queue.hpp: a lock-free broadcast queue of elements in
-- shared memory. `A` is the element type `T`, `size_of` its `sizeof`, and `blank` what a read out of
-- bounds would give. A `Ring` is the segment; a `Client` is one `RingQueue` object on it. Where
-- another process may act between two atomic accesses of a method, both states are arguments.
pub mod State
pub mod Open
pub mod Push
pub mod Pop
pub mod Valid
pub mod Broadcast
pub mod Produce
pub mod Consume
pub mod Join
pub mod Race
