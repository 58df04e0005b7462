-- ===== src/Caches.antt =====
-- The in-memory caches and the counters of requests (src/common/services/ and
-- src/common/middleware/).
pub mod Permissions
mod KeyLists
mod Refinement
mod Tenancy
mod Bounds
mod Invalidation
pub mod Deduplication
pub mod RateLimit
pub mod Throttler
mod Tests
