-- ===== src/Artifact/Writer.antt =====
-- writer.rs: the file of a lock. The plaintext reader is the source of Stream; the writer takes
-- whatever it is given.
use timelocked.Common.{ℕ, ◌+◌, ◌*◌, not, Option, none, some, ◌++◌, ◌==◌, if◌then◌else◌, length}
use timelocked.Common.Bytes.{Bytes}
use timelocked.Base.{
  Result, ok, err, invalid_argument, invalid_format, text, Polls, reject_if, ◌>>=◌, ◌>>◌,
}
use timelocked.Primitives.{Primitives}
use timelocked.Keys.Params.{PasswordProtectionMetadata}
use timelocked.Stream.Source.{Source}
use timelocked.Stream.Encrypt.{encrypt_protected_stream_with_cancel}
use timelocked.Region.Layout.{PayloadRegionLayout, div_ceil, encoded_payload_region_len}
use timelocked.Region.Encode.{encode_payload_region}
use timelocked.Superblock.Body.{
  SuperblockBody, TimelockPayloadMaterial, body_version_v1, body_version_v2,
  aead_cipher_id_xchacha20poly1305, rs_algorithm_id_gf256_reed_solomon,
  timelock_algorithm_id_rsw_repeated_squaring_v1,
}
use timelocked.Superblock.Encode.{superblock_digest}
use timelocked.Superblock.Copies.{encode_start_superblock_copy, encode_end_superblock_copy}
use timelocked.Artifact.Notice.{default_notice_text, encode_notice}

-- `PayloadRegionEncodingParams` has the fields of `PayloadRegionLayout`.
pub record LockArtifactRequest : Type 0 where
  pub notice : Option Bytes
  pub original_filename : Option Bytes
  pub iterations : ℕ
  pub modulus_bits : ℕ
  pub hardware_profile : Bytes
  pub target_seconds : Option ℕ
  pub created_at_unix_seconds : ℕ
  pub payload_plaintext_bytes : ℕ
  pub aead_chunk_size_bytes : ℕ
  pub payload_region_params : PayloadRegionLayout
  pub key_bytes : Bytes
  pub timelock_material : TimelockPayloadMaterial
  pub password_protection : Option PasswordProtectionMetadata

-- The sum stays below 2 ^ 64 for a payload below 2 ^ 58 bytes, a bound that every file meets.
unfoldable pub predicted_protected_stream_len : ℕ → ℕ → Result ℕ
predicted_protected_stream_len payload_plaintext_bytes chunk_size =
    if chunk_size == 0
    then err (invalid_argument (text "aead_chunk_size_bytes must be greater than 0"))
    else let chunk_count =
        if payload_plaintext_bytes == 0 then 1 else div_ceil payload_plaintext_bytes chunk_size in
      ok (payload_plaintext_bytes + chunk_count * 57)

abbrev pub body_version_of : Option PasswordProtectionMetadata → ℕ
body_version_of none = body_version_v1
body_version_of (some metadata) = body_version_v2

abbrev pub notice_or_default : Option Bytes → Bytes
notice_or_default none = default_notice_text
notice_or_default (some notice) = notice

unfoldable pub superblock_of : LockArtifactRequest → ℕ → ℕ → SuperblockBody
superblock_of request protected_stream_len payload_region_len = record {
  body_version = body_version_of request.password_protection;
  flags = 0;
  payload_plaintext_bytes = request.payload_plaintext_bytes;
  protected_stream_len = protected_stream_len;
  payload_region_len = payload_region_len;
  aead_chunk_size_bytes = request.aead_chunk_size_bytes;
  aead_cipher_id = aead_cipher_id_xchacha20poly1305;
  rs_algorithm_id = rs_algorithm_id_gf256_reed_solomon;
  rs_data_shards = request.payload_region_params.rs_data_shards;
  rs_parity_shards = request.payload_region_params.rs_parity_shards;
  rs_shard_bytes = request.payload_region_params.rs_shard_bytes;
  timelock_algorithm_id = timelock_algorithm_id_rsw_repeated_squaring_v1;
  iterations = request.iterations;
  modulus_bits = request.modulus_bits;
  target_seconds = request.target_seconds;
  created_at_unix_seconds = request.created_at_unix_seconds;
  original_filename = request.original_filename;
  hardware_profile = request.hardware_profile;
  timelock_material = request.timelock_material;
  password_protection = request.password_protection;
}

module _ (p : Primitives) (nonces : ℕ → Bytes) where
  -- The bytes of the file.
  unfoldable pub write_timelocked_artifact : Polls → Source → LockArtifactRequest → Result Bytes
  write_timelocked_artifact polls plaintext_reader request = do
    let layout = request.payload_region_params
    protected_stream_len ←
        predicted_protected_stream_len request.payload_plaintext_bytes request.aead_chunk_size_bytes
    payload_region_len ← encoded_payload_region_len protected_stream_len layout
    let superblock = superblock_of request protected_stream_len payload_region_len
    digest ← superblock_digest p superblock
    (protected_stream, stats) ←
        encrypt_protected_stream_with_cancel p request.key_bytes digest nonces
          request.aead_chunk_size_bytes polls plaintext_reader
    reject_if (not (stats.plaintext_bytes == request.payload_plaintext_bytes))
        (invalid_format (text "protected stream plaintext length mismatch"))
    reject_if (not (length protected_stream == protected_stream_len))
        (invalid_format (text "protected stream length mismatch"))
    payload_region ← encode_payload_region p protected_stream layout
    reject_if (not (length payload_region == payload_region_len))
        (invalid_format (text "payload region length mismatch"))
    notice ← encode_notice (notice_or_default request.notice)
    start_copy ← encode_start_superblock_copy p superblock
    end_copy ← encode_end_superblock_copy p superblock
    ok (notice ++ (start_copy ++ (payload_region ++ end_copy)))
