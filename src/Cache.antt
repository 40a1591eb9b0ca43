-- ===== src/Cache.antt =====
-- src/cache/mod.rs: the storage of the cache. The keys of the cache and their partitions are in Partition.
pub mod Tier
pub mod Ranks
pub mod Keeps
pub mod Inserts
mod Tests
