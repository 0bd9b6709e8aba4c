-- ===== src/Redis.antt =====
-- lib/redis/: the cache behind an interface, its in-memory implementation, and its clients.
pub mod Action
pub mod Cache
pub mod Memory
pub mod Lock
pub mod Idempotency
pub mod Limiter
pub mod Budget
mod Tests
