-- ===== src/Region.antt =====
-- domains/timelocked_file/payload_region.rs, shard_record.rs, reed_solomon.rs: the payload region
-- with its redundancy. The operations are in `Shard`, `Codec`, `Encode` and `Reconstruct`.
pub mod Shard
pub mod Codec
pub mod Layout
pub mod Encode
pub mod Reconstruct
pub mod Padding
pub mod Recovery
