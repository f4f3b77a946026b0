-- ===== src/Superblock.antt =====
-- domains/timelocked_file/superblock_body.rs and superblock.rs: the metadata of an artifact, and its
-- two copies. PasswordProtectionMetadata of superblock_body.rs is in Keys/Params.
pub mod Body
pub mod Encode
pub mod Decode
pub mod RoundTrip
pub mod Copies
pub mod Restore
