-- ===== src/Inspect/Header.antt =====
-- domains/timelocked_file/header.rs. chrono's formatting of a timestamp is given.
use timelocked.Common.{ℕ, Bool, true, false, Option, none, some, length}
use timelocked.Common.Bytes.{Bytes, ascii}
use timelocked.Keys.Params.{PasswordProtectionMetadata}
use timelocked.Superblock.Body.{SuperblockBody}
use timelocked.Paths.Decimal.{decimal}

pub record PasswordProtectionSummary : Type 0 where
  pub password_protected : Bool
  pub key_protection_algorithm : Option Bytes
  pub password_kdf_algorithm : Option Bytes
  pub password_kdf_memory_kib : Option ℕ
  pub password_kdf_iterations : Option ℕ
  pub password_kdf_parallelism : Option ℕ
  pub password_salt_len : Option ℕ

pub record CipherParams : Type 0 where
  pub payload_cipher : Bytes
  pub key_wrap : Bytes

pub record ChunkingParams : Type 0 where
  pub chunk_size_bytes : ℕ

pub record TimelockParams : Type 0 where
  pub algorithm : Bytes
  pub iterations : ℕ
  pub modulus_bits : ℕ
  pub hardware_profile : Bytes
  pub target_seconds : Option ℕ

pub record TimelockedHeader : Type 0 where
  pub about : Bytes
  pub original_filename : Option Bytes
  pub created_at : Bytes
  pub creator_name : Option Bytes
  pub creator_message : Option Bytes
  pub cipher_params : CipherParams
  pub chunking_params : ChunkingParams
  pub timelock_params : TimelockParams
  pub password_protection : PasswordProtectionSummary
  pub payload_plaintext_bytes : ℕ

abbrev pub key_wrap_of : Option PasswordProtectionMetadata → Bytes
key_wrap_of (some metadata) = ascii "timelock-plus-argon2id-v1"
key_wrap_of none = ascii "blake3-xor-v1"

unfoldable pub inspect_key_wrap_algorithm : SuperblockBody → Bytes
inspect_key_wrap_algorithm body = key_wrap_of body.password_protection

abbrev pub summary_of : Option PasswordProtectionMetadata → PasswordProtectionSummary
summary_of (some metadata) = record {
  password_protected = true;
  key_protection_algorithm = some (ascii "timelock-plus-argon2id-v1");
  password_kdf_algorithm = some (ascii "argon2id");
  password_kdf_memory_kib = some metadata.params.memory_kib;
  password_kdf_iterations = some metadata.params.iterations;
  password_kdf_parallelism = some metadata.params.parallelism;
  password_salt_len = some (length metadata.params.salt);
}
summary_of none = record {
  password_protected = false;
  key_protection_algorithm = none;
  password_kdf_algorithm = none;
  password_kdf_memory_kib = none;
  password_kdf_iterations = none;
  password_kdf_parallelism = none;
  password_salt_len = none;
}

unfoldable pub password_protection_summary : SuperblockBody → PasswordProtectionSummary
password_protection_summary body = summary_of body.password_protection

abbrev pub timestamp_or_number : Option Bytes → ℕ → Bytes
timestamp_or_number (some timestamp) created_at_unix_seconds = timestamp
timestamp_or_number none created_at_unix_seconds = decimal created_at_unix_seconds

module _ (rfc3339 : ℕ → Option Bytes) where
  -- The text of the timestamp that the bits of the u64 make as an i64, where there is one.
  unfoldable pub format_created_at : ℕ → Bytes
  format_created_at created_at_unix_seconds =
      timestamp_or_number (rfc3339 created_at_unix_seconds) created_at_unix_seconds

  unfoldable pub from_superblock : SuperblockBody → Bytes → TimelockedHeader
  from_superblock body notice = record {
    about = notice;
    original_filename = body.original_filename;
    created_at = format_created_at body.created_at_unix_seconds;
    creator_name = none;
    creator_message = none;
    cipher_params = record {
      payload_cipher = ascii "XChaCha20-Poly1305";
      key_wrap = inspect_key_wrap_algorithm body;
    };
    chunking_params = record { chunk_size_bytes = body.aead_chunk_size_bytes };
    timelock_params = record {
      algorithm = ascii "rsw-repeated-squaring-v1";
      iterations = body.iterations;
      modulus_bits = body.modulus_bits;
      hardware_profile = body.hardware_profile;
      target_seconds = body.target_seconds;
    };
    password_protection = password_protection_summary body;
    payload_plaintext_bytes = body.payload_plaintext_bytes;
  }
