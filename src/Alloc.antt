-- ===== src/Alloc.antt =====
-- The allocator of lib/memory.
pub mod Words
pub mod Block
pub mod State
pub mod Find
pub mod Ops
pub mod Api
pub mod Report
pub mod Chain
pub mod Layout
pub mod Choice
pub mod Places
pub mod Invariant
pub mod Malloc
pub mod Valid
pub mod Release
pub mod Free
pub mod Trim
pub mod Calloc
pub mod Copy
pub mod Move
pub mod Session
pub mod Realloc
pub mod Faults
