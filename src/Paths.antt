-- ===== src/Paths.antt =====
-- Paths as std::path reads them on Unix, and the modules that build output paths:
-- base/path.rs, domains/timelocked_file/output_path.rs, lock_output_path.rs.
pub mod FilePath
pub mod Decimal
pub mod Output
pub mod Available
pub mod Numbering
