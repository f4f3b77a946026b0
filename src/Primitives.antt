-- ===== src/Primitives.antt =====
-- The libraries that the program calls and does not implement, as one record of operations:
-- crc32c, blake3, chacha20poly1305, reed-solomon-erasure, num-bigint's byte conversions, argon2,
-- and the standard library's UTF-8 check and lossy conversion. A Rust `String` is the list of its UTF-8 bytes.
-- `Laws` states what their documentation promises.
pub mod Laws
use timelocked.Common.{ℕ, Bool, List, Option}
use timelocked.Common.Bytes.{Bytes}

-- The errors of reed-solomon-erasure that the program tells apart.
pub data RsError : Type 0 where
  too_many_shards too_few_shards_present other : RsError

pub data RsResult {ℓ} (A : Type ℓ) : Type ℓ where
  done : A → RsResult A
  failed : RsError → RsResult A

pub record Primitives : Type 0 where
  -- crc32c::crc32c
  pub crc32c : Bytes → ℕ
  -- blake3::hash
  pub blake3 : Bytes → Bytes
  -- XChaCha20Poly1305 with key, nonce, associated data, and the message or the ciphertext
  pub aead_encrypt : Bytes → Bytes → Bytes → Bytes → Option Bytes
  pub aead_decrypt : Bytes → Bytes → Bytes → Bytes → Option Bytes
  -- ReedSolomon::new(data, parity), then encode and reconstruct
  pub rs_new : ℕ → ℕ → RsResult (Unit {0})
  pub rs_encode : ℕ → ℕ → List Bytes → RsResult (List Bytes)
  pub rs_reconstruct : ℕ → ℕ → List (Option Bytes) → RsResult (List (Option Bytes))
  -- BigUint::to_bytes_be and BigUint::from_bytes_be
  pub to_bytes_be : ℕ → Bytes
  pub from_bytes_be : Bytes → ℕ
  -- String::from_utf8 accepts
  pub is_utf8 : Bytes → Bool
  -- OsStr::to_string_lossy
  pub to_string_lossy : Bytes → Bytes
  -- Argon2id: memory, iterations, parallelism, input, salt
  pub argon2_params_ok : ℕ → ℕ → ℕ → Bool
  pub argon2id : ℕ → ℕ → ℕ → Bytes → Bytes → Option Bytes
