-- ===== src/Security.antt =====
-- lib/security and the guards on requests.
pub mod Encryption
pub mod Authorization
pub mod Revocation
pub mod Recipient
pub mod Origin
pub mod Access
mod Tests
