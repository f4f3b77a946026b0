-- ===== src/Keys/Params.antt =====
-- The algorithms and parameters of password_protection.rs, and the metadata of superblock_body.rs
-- that stores them.
use timelocked.Common.{ℕ, ◌^◌, ◌-◌, Bool, true, false, ltb, ◌==◌, if◌then◌else◌, length, is_empty}
use timelocked.Common.Bytes.{Bytes}
use timelocked.Base.{
  Error, Result, ok, err, invalid_argument, invalid_format, text, caused, display, map_err, ◌>>◌,
}

abbrev pub key_protection_algorithm_id_timelock_only : ℕ
key_protection_algorithm_id_timelock_only = 1

abbrev pub key_protection_algorithm_id_timelock_plus_argon2id_v1 : ℕ
key_protection_algorithm_id_timelock_plus_argon2id_v1 = 2

abbrev pub password_kdf_algorithm_id_argon2id : ℕ
password_kdf_algorithm_id_argon2id = 1

abbrev pub default_argon2id_memory_kib : ℕ
default_argon2id_memory_kib = 65_536

abbrev pub default_argon2id_iterations : ℕ
default_argon2id_iterations = 3

abbrev pub default_argon2id_parallelism : ℕ
default_argon2id_parallelism = 1

pub data KeyProtectionAlgorithm : Type 0 where
  timelock_only timelock_plus_argon2id_v1 : KeyProtectionAlgorithm

abbrev pub key_protection_stable_id : KeyProtectionAlgorithm → ℕ
key_protection_stable_id timelock_only = key_protection_algorithm_id_timelock_only
key_protection_stable_id timelock_plus_argon2id_v1 =
    key_protection_algorithm_id_timelock_plus_argon2id_v1

pub data PasswordKdfAlgorithm : Type 0 where
  argon2id : PasswordKdfAlgorithm

abbrev pub password_kdf_stable_id : PasswordKdfAlgorithm → ℕ
password_kdf_stable_id argon2id = password_kdf_algorithm_id_argon2id

pub record PasswordProtectionParams : Type 0 where
  pub memory_kib : ℕ
  pub iterations : ℕ
  pub parallelism : ℕ
  pub salt : Bytes

unfoldable pub validate_params : PasswordProtectionParams → Result (Unit {0})
validate_params params =
    if is_empty params.salt
    then err (invalid_argument (text "password protection salt must not be empty"))
    else if params.memory_kib == 0
    then err (invalid_argument (text "password KDF memory cost must be greater than zero"))
    else if params.iterations == 0
    then err (invalid_argument (text "password KDF iterations must be greater than zero"))
    else if params.parallelism == 0
    then err (invalid_argument (text "password KDF parallelism must be greater than zero"))
    else ok tt

-- `PasswordProtectionParams::new`
unfoldable pub new_params : ℕ → ℕ → ℕ → Bytes → Result PasswordProtectionParams
new_params memory_kib iterations parallelism salt =
    let params : PasswordProtectionParams = record {
      memory_kib = memory_kib;
      iterations = iterations;
      parallelism = parallelism;
      salt = salt;
    } in
    validate_params params >> ok params

unfoldable pub default_with_salt : Bytes → Result PasswordProtectionParams
unfolding new_params
default_with_salt salt =
    new_params default_argon2id_memory_kib default_argon2id_iterations default_argon2id_parallelism
      salt

pub record PasswordProtectionMetadata : Type 0 where
  pub key_protection_algorithm : KeyProtectionAlgorithm
  pub password_kdf_algorithm : PasswordKdfAlgorithm
  pub params : PasswordProtectionParams

-- `PasswordProtectionMetadata::timelock_plus_argon2id_v1`
abbrev pub metadata_v1 : PasswordProtectionParams → PasswordProtectionMetadata
metadata_v1 params = record {
  key_protection_algorithm = timelock_plus_argon2id_v1;
  password_kdf_algorithm = argon2id;
  params = params;
}

abbrev pub invalid_params : Error → Error
invalid_params error =
    invalid_format (caused "invalid password protection parameters: {err}" (display error))

-- The KDF test of `validate` cannot fail: the type has one variant.
abbrev pub wrong_protection : KeyProtectionAlgorithm → Bool
wrong_protection timelock_only = true
wrong_protection timelock_plus_argon2id_v1 = false

unfoldable pub validate_metadata : PasswordProtectionMetadata → Result (Unit {0})
validate_metadata metadata =
    if wrong_protection metadata.key_protection_algorithm
    then err (
        invalid_format (text "password metadata must use timelock-plus-argon2id-v1 key protection"))
    else if is_empty metadata.params.salt
    then err (invalid_format (text "password_salt_len must be greater than 0"))
    else if ltb (2 ^ 16 - 1) (length metadata.params.salt)
    then err (invalid_format (text "password_salt_len exceeds u16 maximum"))
    else map_err invalid_params (validate_params metadata.params)
