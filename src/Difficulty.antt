-- ===== src/Difficulty.antt =====
-- domains/timelock: hardware_profile.rs, delay_estimation.rs, calibration_service.rs and
-- lock_difficulty.rs.
pub mod Resolve
pub mod Estimate
