-- ===== src/Cache.antt =====
-- The caches of package cache.
pub mod Answers
pub mod Chain
pub mod Fetch
pub mod Fifo
pub mod Linked
pub mod Lru
pub mod Lfu
pub mod Policy
pub mod Sampled
pub mod Typed
