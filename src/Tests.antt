-- ===== src/Tests.antt =====
-- Tests of the definitions, and the theorems at concrete inputs.
mod Pools
mod Buffers
mod Handles
mod Ports
mod Rings
mod Values
mod Blocks
mod Merge
mod Bus
mod Registries
mod Scheduling
mod Runtime
mod Wiring
