-- ===== src/Inspect.antt =====
-- What a file says of itself without its key: domains/timelocked_file/header.rs, and the use cases
-- usecases/inspect.rs, verify.rs and calibrate.rs.
pub mod Header
pub mod Execute
pub mod Summary
pub mod Shown
