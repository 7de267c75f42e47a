-- ===== src/Sort.antt =====
-- sort/: sorting of arrays.
pub mod Heap
