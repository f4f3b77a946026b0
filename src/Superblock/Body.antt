-- ===== src/Superblock/Body.antt =====
-- The fields of a superblock body, and `SuperblockBody::validate`.
use timelocked.Common.{ℕ, Bool, true, false, not, Option, none, some, ◌==◌, if◌then◌else◌}
use timelocked.Common.Bytes.{Bytes}
use timelocked.Base.{Result, ok, err, invalid_format, unsupported_version, text, ◌>>◌}
use timelocked.Keys.Params.{PasswordProtectionMetadata, validate_metadata}

abbrev pub body_version_v1 : ℕ
body_version_v1 = 1

abbrev pub body_version_v2 : ℕ
body_version_v2 = 2

abbrev pub aead_cipher_id_xchacha20poly1305 : ℕ
aead_cipher_id_xchacha20poly1305 = 1

abbrev pub rs_algorithm_id_gf256_reed_solomon : ℕ
rs_algorithm_id_gf256_reed_solomon = 1

abbrev pub timelock_algorithm_id_rsw_repeated_squaring_v1 : ℕ
timelock_algorithm_id_rsw_repeated_squaring_v1 = 1

abbrev pub max_superblock_body_len_bytes : ℕ
max_superblock_body_len_bytes = 1_048_576

-- A `BigUint` is a natural number.
pub record TimelockPayloadMaterial : Type 0 where
  pub modulus_n : ℕ
  pub base_a : ℕ
  pub wrapped_key : Bytes

-- A `String` is the list of its UTF-8 bytes.
pub record SuperblockBody : Type 0 where
  pub body_version : ℕ
  pub flags : ℕ
  pub payload_plaintext_bytes : ℕ
  pub protected_stream_len : ℕ
  pub payload_region_len : ℕ
  pub aead_chunk_size_bytes : ℕ
  pub aead_cipher_id : ℕ
  pub rs_algorithm_id : ℕ
  pub rs_data_shards : ℕ
  pub rs_parity_shards : ℕ
  pub rs_shard_bytes : ℕ
  pub timelock_algorithm_id : ℕ
  pub iterations : ℕ
  pub modulus_bits : ℕ
  pub target_seconds : Option ℕ
  pub created_at_unix_seconds : ℕ
  pub original_filename : Option Bytes
  pub hardware_profile : Bytes
  pub timelock_material : TimelockPayloadMaterial
  pub password_protection : Option PasswordProtectionMetadata

-- The match on the version, known to be 1 or 2, and the metadata.
abbrev pub validate_protection : Bool → Option PasswordProtectionMetadata → Result (Unit {0})
validate_protection true (some metadata) =
    err (invalid_format (text "v1 superblock body cannot contain password metadata"))
validate_protection true none = ok tt
validate_protection false none =
    err (invalid_format (text "v2 superblock body requires password metadata"))
validate_protection false (some metadata) = validate_metadata metadata

unfoldable pub validate_fields : SuperblockBody → Result (Unit {0})
validate_fields body =
    if not (body.flags == 0)
    then err (invalid_format (text "unknown critical superblock flags"))
    else if body.aead_chunk_size_bytes == 0
    then err (invalid_format (text "aead_chunk_size_bytes must be greater than 0"))
    else if body.rs_data_shards == 0
    then err (invalid_format (text "rs_data_shards must be greater than 0"))
    else if body.rs_parity_shards == 0
    then err (invalid_format (text "rs_parity_shards must be greater than 0"))
    else if body.rs_shard_bytes == 0
    then err (invalid_format (text "rs_shard_bytes must be greater than 0"))
    else if not (body.aead_cipher_id == aead_cipher_id_xchacha20poly1305)
    then err (invalid_format (text "unknown AEAD algorithm id"))
    else if not (body.rs_algorithm_id == rs_algorithm_id_gf256_reed_solomon)
    then err (invalid_format (text "unknown Reed-Solomon algorithm id"))
    else if not (body.timelock_algorithm_id == timelock_algorithm_id_rsw_repeated_squaring_v1)
    then err (invalid_format (text "unknown timelock algorithm id"))
    else if body.timelock_material.modulus_n == 0
    then err (invalid_format (text "modulus_n_len must be greater than 0"))
    else if body.timelock_material.base_a == 0
    then err (invalid_format (text "base_a_len must be greater than 0"))
    else ok tt

unfoldable pub validate_body : SuperblockBody → Result (Unit {0})
validate_body body =
    if not (body.body_version == body_version_v1)
    then if not (body.body_version == body_version_v2)
      then err (unsupported_version body.body_version)
      else validate_protection false body.password_protection >> validate_fields body
    else validate_protection true body.password_protection >> validate_fields body
