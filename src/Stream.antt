-- ===== src/Stream.antt =====
-- domains/timelocked_file/protected_stream.rs: the chunked AEAD stream. The operations are in the
-- children `Encrypt`, `Decrypt` and `Scan`, the proofs in the other children.
pub mod Source
pub mod Encrypt
pub mod Decrypt
pub mod Scan
pub mod Sealed
pub mod RoundTrip
pub mod Soundness
pub mod Agreement
pub mod Termination
pub mod Totality
