-- ===== src/Keys.antt =====
-- domains/timelocked_file/password_protection.rs: wrapping the file key under the time-lock mask,
-- and under a password.
pub mod Xor
pub mod Params
pub mod Wrap
pub mod Unwrap
