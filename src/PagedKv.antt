-- ===== src/PagedKv.antt =====
-- The paged KV cache of c/qwn_paged_kv.c: the pool of physical blocks with the tables of the requests, and
-- the calls on them.
pub mod Pool
pub mod Cache
pub mod Chunks
pub mod Half
pub mod Arena
pub mod Attention
mod Tests
