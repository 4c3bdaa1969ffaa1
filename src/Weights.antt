-- ===== src/Weights.antt =====
-- The weight setter (src/weight_setter/service.py).
pub mod Payload
pub mod Claim
pub mod Epochs
pub mod Setter
pub mod NewReign
pub mod Samples
pub mod Tests
