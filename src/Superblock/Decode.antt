-- ===== src/Superblock/Decode.antt =====
-- `decode_superblock_body` and the readers of its parts.
use timelocked.Common.{ℕ, not, Option, none, some, ltb, ◌==◌, if◌then◌else◌, length, is_empty}
use timelocked.Common.Bytes.{Bytes}
use timelocked.Base.{Result, ok, err, map_err, invalid_format, unsupported_version, text, reject_if}
use timelocked.Base.Read.{
  Parser, read_exact, read_u8, read_u16, read_u32, read_u64, pure, lift, ◌>>=◌, ◌>>◌,
}
use timelocked.Primitives.{Primitives}
use timelocked.Keys.Params.{
  PasswordProtectionMetadata, metadata_v1, invalid_params, new_params,
  key_protection_algorithm_id_timelock_plus_argon2id_v1, password_kdf_algorithm_id_argon2id,
}
use timelocked.Superblock.Body.{
  SuperblockBody, validate_body, body_version_v1, body_version_v2, max_superblock_body_len_bytes,
}

unfoldable pub read_password_protection_metadata : Parser PasswordProtectionMetadata
read_password_protection_metadata = do
  key_protection_algorithm_id ← read_u8
  lift (
      reject_if
        (not (key_protection_algorithm_id == key_protection_algorithm_id_timelock_plus_argon2id_v1))
        (invalid_format (text "unknown key protection algorithm id")))
  password_kdf_algorithm_id ← read_u8
  lift (
      reject_if (not (password_kdf_algorithm_id == password_kdf_algorithm_id_argon2id))
        (invalid_format (text "unknown password KDF algorithm id")))
  memory_kib ← read_u32
  iterations ← read_u32
  parallelism ← read_u32
  salt_len ← read_u16
  lift
      (reject_if (salt_len == 0) (invalid_format (text "password_salt_len must be greater than 0")))
  salt ← read_exact salt_len
  params ← lift (map_err invalid_params (new_params memory_kib iterations parallelism salt))
  pure (metadata_v1 params)

-- `target_seconds` from its flag and its raw value.
unfoldable pub target_seconds_of : ℕ → ℕ → Result (Option ℕ)
target_seconds_of present raw =
    if present == 0
    then ok none
    else if present == 1
    then ok (some raw)
    else err (invalid_format (text "target_seconds_present must be 0 or 1"))

-- The match on the version in front of the metadata.
unfoldable pub read_protection : ℕ → Parser (Option PasswordProtectionMetadata)
read_protection body_version =
    if body_version == body_version_v1
    then pure none
    else if body_version == body_version_v2
    then (do metadata ← read_password_protection_metadata; pure (some metadata))
    else lift (err (unsupported_version body_version))

-- The test of the position: nothing is left.
unfoldable pub expect_no_trailing : Parser (Unit {0})
expect_no_trailing s =
    if is_empty s
    then ok (tt, s)
    else err (invalid_format (text "unexpected trailing bytes in superblock body"))

module _ (p : Primitives) where
  unfoldable pub read_optional_utf8 : ℕ → Parser (Option Bytes)
  read_optional_utf8 len = if len == 0 then pure none else (do
    bytes ← read_exact len
    lift (
        reject_if (not (p.is_utf8 bytes))
          (invalid_format (text "original_filename_utf8 is invalid UTF-8")))
    pure (some bytes))

  unfoldable pub read_required_utf8 : ℕ → Parser Bytes
  read_required_utf8 len = do
    bytes ← read_exact len
    lift (
        reject_if (not (p.is_utf8 bytes))
          (invalid_format (text "hardware_profile_utf8 is invalid UTF-8")))
    pure bytes

  unfoldable pub read_body : Parser SuperblockBody
  read_body = do
    body_version ← read_u8
    flags ← read_u16
    payload_plaintext_bytes ← read_u64
    protected_stream_len ← read_u64
    payload_region_len ← read_u64
    aead_chunk_size_bytes ← read_u32
    aead_cipher_id ← read_u8
    rs_algorithm_id ← read_u8
    rs_data_shards ← read_u16
    rs_parity_shards ← read_u16
    rs_shard_bytes ← read_u32
    timelock_algorithm_id ← read_u8
    iterations ← read_u64
    modulus_bits ← read_u16
    target_seconds_present ← read_u8
    raw_target_seconds ← read_u64
    target_seconds ← lift (target_seconds_of target_seconds_present raw_target_seconds)
    created_at_unix_seconds ← read_u64
    original_filename_len ← read_u16
    original_filename ← read_optional_utf8 original_filename_len
    hardware_profile_len ← read_u16
    hardware_profile ← read_required_utf8 hardware_profile_len
    modulus_n_len ← read_u32
    lift (
        reject_if (modulus_n_len == 0)
          (invalid_format (text "modulus_n_len must be greater than 0")))
    modulus_n_bytes ← read_exact modulus_n_len
    base_a_len ← read_u32
    lift (reject_if (base_a_len == 0) (invalid_format (text "base_a_len must be greater than 0")))
    base_a_bytes ← read_exact base_a_len
    wrapped_key ← read_exact 32
    password_protection ← read_protection body_version
    expect_no_trailing
    let body : SuperblockBody = record {
      body_version = body_version;
      flags = flags;
      payload_plaintext_bytes = payload_plaintext_bytes;
      protected_stream_len = protected_stream_len;
      payload_region_len = payload_region_len;
      aead_chunk_size_bytes = aead_chunk_size_bytes;
      aead_cipher_id = aead_cipher_id;
      rs_algorithm_id = rs_algorithm_id;
      rs_data_shards = rs_data_shards;
      rs_parity_shards = rs_parity_shards;
      rs_shard_bytes = rs_shard_bytes;
      timelock_algorithm_id = timelock_algorithm_id;
      iterations = iterations;
      modulus_bits = modulus_bits;
      target_seconds = target_seconds;
      created_at_unix_seconds = created_at_unix_seconds;
      original_filename = original_filename;
      hardware_profile = hardware_profile;
      timelock_material = record {
        modulus_n = p.from_bytes_be modulus_n_bytes;
        base_a = p.from_bytes_be base_a_bytes;
        wrapped_key = wrapped_key;
      };
      password_protection = password_protection;
    }
    lift (validate_body body)
    pure body

  -- The cursor is dropped with its position at the end.
  abbrev pub parsed {ℓ} : {A : Type ℓ} → Result (A × Bytes) → Result A
  parsed (ok (a, rest)) = ok a
  parsed (err e) = err e

  unfoldable pub decode_superblock_body : Bytes → Result SuperblockBody
  decode_superblock_body bytes =
      if ltb max_superblock_body_len_bytes (length bytes)
      then err (invalid_format (text "superblock body exceeds maximum size"))
      else parsed (read_body bytes)
