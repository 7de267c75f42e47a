-- ===== src/Allocator.antt =====
-- The allocators of allocator/: each in a module of its own, over core/memory.c.
pub mod Registry
pub mod Arena
pub mod Stack
pub mod Pool
pub mod Handle
pub mod Page
pub mod Lease
