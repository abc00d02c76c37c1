-- ===== src/PagedKv.antt =====
-- The paged KV cache of fastmoe/backend/paged_kv_cache.py: block tables, and the cells they name.
pub mod BlockTable
pub mod Allocation
pub mod Partition
pub mod Cache
pub mod Rows
pub mod RoundTrip
pub mod Isolation
pub mod Layers
pub mod Capacity
pub mod CapacityBounds
pub mod Memory
mod Tests
