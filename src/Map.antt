-- ===== src/Map.antt =====
-- map/: the hash table that the page allocator and the lease allocator keep their records in.
pub mod Linear
