-- ===== src/Sentinel.antt =====
-- sentinel/: the circuit breaker that watches the vaults and leaves them in an emergency.
pub mod Types
pub mod Config
pub mod History
pub mod Confirm
pub mod Rules
pub mod Exit
pub mod Worker
mod Tests
