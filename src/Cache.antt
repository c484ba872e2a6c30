-- ===== src/Cache.antt =====
-- internal/cache: the semantic cache. `Key` is cache.go's bucket key, `Vector` the vectors, `Shard`
-- the state of one shard and its operations, `Store` the sharded store and the guarded insert.
pub mod Key
pub mod Vector
pub mod Shard
pub mod Store
pub mod Recency
pub mod Index
pub mod Valid
pub mod Evict
pub mod Insert
pub mod Touch
pub mod Observe
pub mod Nearest
pub mod Guarded
pub mod Steps
pub mod Abstract
pub mod Refined
pub mod Counted
pub mod RoundTrip
