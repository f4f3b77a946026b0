-- ===== src/Unlock.antt =====
-- usecases/unlock.rs: from a request to a file on the disk or a text, with up to three passwords.
pub mod Request
pub mod Key
pub mod Execute
pub mod Safety
pub mod Prompts
pub mod Verdict
pub mod Once
