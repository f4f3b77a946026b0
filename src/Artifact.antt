-- ===== src/Artifact.antt =====
-- domains/timelocked_file/notice.rs, writer.rs, reader.rs and artifact.rs: the whole file, from the
-- notice to the end superblock.
pub mod Notice
pub mod Writer
pub mod Reader
pub mod Locate
pub mod RoundTrip
pub mod Recovery
pub mod Written
pub mod Unlocked
pub mod Verified
pub mod Totality
pub mod Bounds
