-- ===== src/Reign.antt =====
-- The set-reign worker (src/set_reign_worker/service.py).
pub mod Plan
pub mod Claim
pub mod Checks
pub mod Promote
pub mod Tests
pub mod Samples
