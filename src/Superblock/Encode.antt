-- ===== src/Superblock/Encode.antt =====
-- `encode_superblock_body` and `superblock_digest`. A length is cut to its field's width, as the
-- casts do.
use timelocked.Common.{ℕ, Option, none, some, [], ◌∷◌, ◌++◌, length}
use timelocked.Common.Bytes.{Bytes, le_bytes}
use timelocked.Base.{Result, ok, ◌>>=◌, ◌>>◌}
use timelocked.Primitives.{Primitives}
use timelocked.Keys.Params.{
  PasswordProtectionMetadata, key_protection_stable_id, password_kdf_stable_id,
}
use timelocked.Superblock.Body.{SuperblockBody, validate_body}

-- `original_filename.as_deref().unwrap_or_default()`
abbrev pub or_empty : Option Bytes → Bytes
or_empty none = []
or_empty (some name) = name

abbrev pub target_seconds_present : Option ℕ → ℕ
target_seconds_present none = 0
target_seconds_present (some n) = 1

abbrev pub target_seconds_value : Option ℕ → ℕ
target_seconds_value none = 0
target_seconds_value (some n) = n

abbrev pub password_bytes : Option PasswordProtectionMetadata → Bytes
password_bytes none = []
password_bytes (some metadata) =
    key_protection_stable_id metadata.key_protection_algorithm
    ∷ password_kdf_stable_id metadata.password_kdf_algorithm
    ∷ (le_bytes 4 metadata.params.memory_kib
        ++ (le_bytes 4 metadata.params.iterations
            ++ (le_bytes 4 metadata.params.parallelism
                ++ (le_bytes 2 (length metadata.params.salt) ++ metadata.params.salt))))

module _ (p : Primitives) where
  -- What `out` holds at the end.
  unfoldable pub body_bytes : SuperblockBody → Bytes
  body_bytes body =
      let modulus_n_bytes = p.to_bytes_be body.timelock_material.modulus_n in
      let base_a_bytes = p.to_bytes_be body.timelock_material.base_a in
      let original_filename_bytes = or_empty body.original_filename in
      let hardware_profile_bytes = body.hardware_profile in
      body.body_version
      ∷ (le_bytes 2 body.flags
          ++ (le_bytes 8 body.payload_plaintext_bytes
              ++ (le_bytes 8 body.protected_stream_len
                  ++ (le_bytes 8 body.payload_region_len
                      ++ (le_bytes 4 body.aead_chunk_size_bytes
                          ++ (body.aead_cipher_id
                              ∷ body.rs_algorithm_id
                              ∷ (le_bytes 2 body.rs_data_shards
                                  ++ (le_bytes 2 body.rs_parity_shards
                                      ++ (le_bytes 4 body.rs_shard_bytes
                                          ++ (body.timelock_algorithm_id
                                              ∷ (le_bytes 8 body.iterations
                                                  ++ (le_bytes 2 body.modulus_bits
                                                      ++ (target_seconds_present body.target_seconds
                                                          ∷ (le_bytes 8 (
                                                            target_seconds_value
                                                            body.target_seconds)
                                                            ++ (le_bytes 8
                                                            body.created_at_unix_seconds
                                                            ++ (le_bytes 2
                                                            (length original_filename_bytes)
                                                            ++ (original_filename_bytes
                                                            ++ (le_bytes 2
                                                            (length hardware_profile_bytes)
                                                            ++ (hardware_profile_bytes
                                                            ++ (le_bytes 4 (length modulus_n_bytes)
                                                            ++ (modulus_n_bytes
                                                            ++ (le_bytes 4 (length base_a_bytes)
                                                            ++ (base_a_bytes
                                                            ++ (body.timelock_material.wrapped_key
                                                            ++ password_bytes
                                                            body.password_protection))))))))))))))))))))))))

  unfoldable pub encode_superblock_body : SuperblockBody → Result Bytes
  encode_superblock_body body = validate_body body >> ok (body_bytes body)

  unfoldable pub superblock_digest : SuperblockBody → Result Bytes
  superblock_digest body = do bytes ← encode_superblock_body body; ok (p.blake3 bytes)
