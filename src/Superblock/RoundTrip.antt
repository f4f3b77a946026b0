-- ===== src/Superblock/RoundTrip.antt =====
-- Decoding an encoded superblock body.
use timelocked.Common.{
  ℕ, ◌^◌, ◌≤◌, ◌<◌, ◌≡◌, refl, true, false, not, Option, none, some, [], ◌∷◌, ◌++◌, arith, ◌==◌,
  le→ltb, if◌then◌else◌, length, take_all, drop_all,
}
use timelocked.Common.Bytes.{Bytes}
use timelocked.Base.{Result, ok, err, unsupported_version, ◌>>◌}
use timelocked.Base.Read.{
  read_exact, read_exact-append, read_u8, read_u16_lem, read_u32_lem, read_u64_lem,
}
use timelocked.Primitives.{Primitives}
use timelocked.Primitives.Laws.{IsBigEndian}
use timelocked.Keys.Params.{
  KeyProtectionAlgorithm, PasswordKdfAlgorithm, PasswordProtectionParams,
  PasswordProtectionMetadata, timelock_only, timelock_plus_argon2id_v1, argon2id, validate_metadata,
  validate_params, new_params, metadata_v1,
}
use timelocked.Superblock.Body.{
  SuperblockBody, validate_body, validate_fields, validate_protection,
  max_superblock_body_len_bytes,
}
use timelocked.Superblock.Encode.{
  or_empty, target_seconds_present, target_seconds_value, password_bytes, body_bytes,
  encode_superblock_body,
}
use timelocked.Superblock.Decode.{
  read_password_protection_metadata, target_seconds_of, read_protection, expect_no_trailing,
  read_optional_utf8, read_required_utf8, read_body, decode_superblock_body,
}

abbrev pub IsMetadata : Option PasswordProtectionMetadata → Type 0
IsMetadata none = Unit {0}
IsMetadata (some m) =
    (m.params.memory_kib < 2 ^ 32)
    × (m.params.iterations < 2 ^ 32)
    × (m.params.parallelism < 2 ^ 32)

abbrev pub FitsU64 : Option ℕ → Type 0
FitsU64 none = Unit {0}
FitsU64 (some n) = n < 2 ^ 64

salt_valid :
    (params : PasswordProtectionParams)
    → validate_metadata (metadata_v1 params) ≡ ok tt
    → (0 < length params.salt) × (length params.salt < 2 ^ 16) × (validate_params params ≡ ok tt)
unfolding validate_metadata
salt_valid params h = (ground arith, ground arith, ground arith)

read_exact_all : (s : Bytes) → read_exact (length s) s ≡ ok (s, [])
unfolding read_exact
read_exact_all s = ground (arith, take_all (length s) s, drop_all (length s) s)

positive : (s : Bytes) → 0 < length s → (length s == 0) ≡ false
positive [] h = absurd (omega arith)
positive (b ∷ s) h = ground arith

expect_nothing : expect_no_trailing [] ≡ ok (tt, [])
unfolding expect_no_trailing
expect_nothing = refl

module _ (p : Primitives) where
  abbrev pub IsName : Option Bytes → Type 0
  IsName none = Unit {0}
  IsName (some name) = (0 < length name) × (length name < 2 ^ 16) × (p.is_utf8 name ≡ true)

  -- The ranges that the Rust types give, and the lengths that the casts to the width of a length
  -- field keep.
  pub record IsBody (body : SuperblockBody) : Type 0 where
    pub flags : body.flags < 2 ^ 16
    pub plaintext : body.payload_plaintext_bytes < 2 ^ 64
    pub stream : body.protected_stream_len < 2 ^ 64
    pub region : body.payload_region_len < 2 ^ 64
    pub chunk_size : body.aead_chunk_size_bytes < 2 ^ 32
    pub data_shards : body.rs_data_shards < 2 ^ 16
    pub parity_shards : body.rs_parity_shards < 2 ^ 16
    pub shard_bytes : body.rs_shard_bytes < 2 ^ 32
    pub iterations : body.iterations < 2 ^ 64
    pub modulus_bits : body.modulus_bits < 2 ^ 16
    pub target_seconds : FitsU64 body.target_seconds
    pub created : body.created_at_unix_seconds < 2 ^ 64
    pub filename : IsName body.original_filename
    pub profile : length body.hardware_profile < 2 ^ 16
    pub profile_utf8 : p.is_utf8 body.hardware_profile ≡ true
    pub modulus_n : length (p.to_bytes_be body.timelock_material.modulus_n) < 2 ^ 32
    pub base_a : length (p.to_bytes_be body.timelock_material.base_a) < 2 ^ 32
    pub wrapped_key : length body.timelock_material.wrapped_key ≡ 32
    pub metadata : IsMetadata body.password_protection

  target_seconds_lem :
      (t : Option ℕ) → target_seconds_of (target_seconds_present t) (target_seconds_value t) ≡ ok t
  unfolding target_seconds_of
  target_seconds_lem none = refl
  target_seconds_lem (some n) = refl

  target_seconds_fits : (t : Option ℕ) → FitsU64 t → target_seconds_value t < 2 ^ 64
  target_seconds_fits none h = omega arith
  target_seconds_fits (some n) h = h

  filename_fits : (name : Option Bytes) → IsName name → length (or_empty name) < 2 ^ 16
  filename_fits none h = omega arith
  filename_fits (some name) h = h.1

  read_optional_utf8_lem :
      (name : Option Bytes) (rest : Bytes)
      → IsName name
      → read_optional_utf8 p (length (or_empty name)) (or_empty name ++ rest) ≡ ok (name, rest)
  unfolding read_optional_utf8
  read_optional_utf8_lem none rest h = refl
  read_optional_utf8_lem (some name) rest h =
      rw (positive name h.0, read_exact-append (length name) name rest refl, h.2)

  read_required_utf8_lem :
      (name rest : Bytes)
      → p.is_utf8 name ≡ true
      → read_required_utf8 p (length name) (name ++ rest) ≡ ok (name, rest)
  unfolding read_required_utf8
  read_required_utf8_lem name rest h = rw (read_exact-append (length name) name rest refl, h)

  read_metadata_parts :
      (k : KeyProtectionAlgorithm) (d : PasswordKdfAlgorithm) (params : PasswordProtectionParams)
      → (params.memory_kib < 2 ^ 32) × (params.iterations < 2 ^ 32) × (params.parallelism < 2 ^ 32)
      → validate_metadata
          (record { key_protection_algorithm = k; password_kdf_algorithm = d; params = params })
        ≡ ok tt
      → read_password_protection_metadata (
          password_bytes (
            some (record {
              key_protection_algorithm = k;
              password_kdf_algorithm = d;
              params = params;
            })))
        ≡ ok (
          record { key_protection_algorithm = k; password_kdf_algorithm = d; params = params },
          [],
        )
  unfolding read_password_protection_metadata validate_metadata read_u8 new_params
  read_metadata_parts timelock_only d params h v = absurd (cc)
  read_metadata_parts timelock_plus_argon2id_v1 argon2id params h v =
      let (some_salt, short_salt, valid) = salt_valid params v in
      rw (
        read_u32_lem params.memory_kib _ h.0,
        read_u32_lem params.iterations _ h.1,
        read_u32_lem params.parallelism _ h.2,
        read_u16_lem (length params.salt) params.salt short_salt,
        positive params.salt some_salt,
        read_exact_all params.salt,
        valid,
      )

  read_protection_cases :
      (version : ℕ) (protection : Option PasswordProtectionMetadata) (fields : Result (Unit {0}))
      → IsMetadata protection
      → (if not (version == 1)
          then if not (version == 2)
            then err (unsupported_version version)
            else validate_protection false protection >> fields
          else validate_protection true protection >> fields)
        ≡ ok tt
      → read_protection version (password_bytes protection) ≡ ok (protection, [])
  unfolding read_protection
  read_protection_cases version none fields h v = ground arith
  read_protection_cases version (some m) fields h v =
      let valid : validate_metadata m ≡ ok tt = ground arith in
      ground (
        arith,
        read_metadata_parts m.key_protection_algorithm m.password_kdf_algorithm m.params h valid,
      )

  read_protection_lem :
      (body : SuperblockBody)
      → IsMetadata body.password_protection
      → validate_body body ≡ ok tt
      → read_protection body.body_version (password_bytes body.password_protection)
        ≡ ok (body.password_protection, [])
  unfolding read_protection validate_body
  read_protection_lem body h v =
      read_protection_cases body.body_version body.password_protection (validate_fields body) h v

  read-body_bytes :
      IsBigEndian p
      → (body : SuperblockBody) → IsBody body
      → validate_body body ≡ ok tt
      → read_body p (body_bytes p body) ≡ ok (body, [])
  unfolding read_body body_bytes read_u8
  read-body_bytes big body w v = rw (
    read_u16_lem body.flags _ w.flags,
    read_u64_lem body.payload_plaintext_bytes _ w.plaintext,
    read_u64_lem body.protected_stream_len _ w.stream,
    read_u64_lem body.payload_region_len _ w.region,
    read_u32_lem body.aead_chunk_size_bytes _ w.chunk_size,
    read_u16_lem body.rs_data_shards _ w.data_shards,
    read_u16_lem body.rs_parity_shards _ w.parity_shards,
    read_u32_lem body.rs_shard_bytes _ w.shard_bytes,
    read_u64_lem body.iterations _ w.iterations,
    read_u16_lem body.modulus_bits _ w.modulus_bits,
    read_u64_lem (target_seconds_value body.target_seconds) _
        (target_seconds_fits body.target_seconds w.target_seconds),
    target_seconds_lem body.target_seconds,
    read_u64_lem body.created_at_unix_seconds _ w.created,
    read_u16_lem (length (or_empty body.original_filename)) _
        (filename_fits body.original_filename w.filename),
    read_optional_utf8_lem body.original_filename _ w.filename,
    read_u16_lem (length body.hardware_profile) _ w.profile,
    read_required_utf8_lem body.hardware_profile _ w.profile_utf8,
    read_u32_lem (length (p.to_bytes_be body.timelock_material.modulus_n)) _ w.modulus_n,
    positive (p.to_bytes_be body.timelock_material.modulus_n)
        (big.nonempty body.timelock_material.modulus_n),
    read_exact-append _ (p.to_bytes_be body.timelock_material.modulus_n) _ refl,
    read_u32_lem (length (p.to_bytes_be body.timelock_material.base_a)) _ w.base_a,
    positive (p.to_bytes_be body.timelock_material.base_a)
        (big.nonempty body.timelock_material.base_a),
    read_exact-append _ (p.to_bytes_be body.timelock_material.base_a) _ refl,
    read_exact-append 32 body.timelock_material.wrapped_key _ w.wrapped_key,
    read_protection_lem body w.metadata v,
    expect_nothing,
    big.restores body.timelock_material.modulus_n,
    big.restores body.timelock_material.base_a,
    v,
  )

  encode_superblock_body-inv :
      (body : SuperblockBody) (bytes : Bytes)
      → encode_superblock_body p body ≡ ok bytes
      → (validate_body body ≡ ok tt) × (bytes ≡ body_bytes p body)
  unfolding encode_superblock_body
  encode_superblock_body-inv body bytes h = (ground arith, ground arith)

  -- Decoding the bytes of an encoded superblock body returns the body: every field, the optional
  -- target, filename and password metadata included. The fields are in the ranges of their
  -- types, the names are valid UTF-8 below 64 KiB and a filename is not empty, the big integers are
  -- restored from their bytes, and the whole is at most 1 MiB.
  pub decode-encode_superblock_body :
      IsBigEndian p
      → (body : SuperblockBody) (bytes : Bytes) → IsBody body
      → encode_superblock_body p body ≡ ok bytes
      → length bytes ≤ max_superblock_body_len_bytes
      → decode_superblock_body p bytes ≡ ok body
  unfolding decode_superblock_body
  decode-encode_superblock_body big body bytes w h small =
      let (v, same) = encode_superblock_body-inv body bytes h in
      rw (
        le→ltb max_superblock_body_len_bytes (length bytes) small,
        same,
        read-body_bytes big body w v,
      )
