-- ===== src/Sessions.antt =====
-- The sessions of backend/src/services/auth-session.service.ts.
pub mod Token
pub mod Service
pub mod Keys
pub mod Effects
pub mod Rotation
pub mod Index
pub mod Revocation
pub mod Runs
pub mod Races
mod Tests
