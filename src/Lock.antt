-- ===== src/Lock.antt =====
-- usecases/lock: from a text, a file or standard input to a file with the locked payload.
pub mod Shards
pub mod ShardBounds
pub mod Staging
pub mod Payload
pub mod Execute
pub mod Written
pub mod RoundTrip
pub mod Safety
