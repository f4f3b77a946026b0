-- ===== src/Keys/Wrap.antt =====
-- Deriving the wrap key, wrapping and unwrapping. A passphrase (`SecretString`) is its bytes;
-- clearing memory has no value to model.
use timelocked.Common.{not, Option, none, some, ◌++◌, if◌then◌else◌, is_empty}
use timelocked.Common.Bytes.{Bytes, ascii}
use timelocked.Base.{Result, ok, err, invalid_argument, crypto, text, ◌>>=◌, ◌>>◌}
use timelocked.Primitives.{Primitives}
use timelocked.Keys.Xor.{xor_32}
use timelocked.Keys.Params.{
  PasswordProtectionParams, PasswordProtectionMetadata, validate_params, metadata_v1,
  default_with_salt,
}

abbrev pub kdf_result : Option Bytes → Result Bytes
kdf_result none = err (crypto (text "password KDF failed: {err}"))
kdf_result (some wrap_key) = ok wrap_key

unfoldable pub wrap_file_key_with_timelock_mask : Bytes → Bytes → Bytes
wrap_file_key_with_timelock_mask file_key timelock_mask = xor_32 file_key timelock_mask

unfoldable pub validate_lock_passphrase : Bytes → Result (Unit {0})
validate_lock_passphrase passphrase =
    if is_empty passphrase
    then err (invalid_argument (text "password must not be empty"))
    else ok tt

module _ (p : Primitives) where
  unfoldable pub derive_password_wrap_key : PasswordProtectionParams → Bytes → Bytes → Result Bytes
  derive_password_wrap_key params timelock_mask passphrase =
      validate_params params
      >> (if not (p.argon2_params_ok params.memory_kib params.iterations params.parallelism)
          then err (invalid_argument (text "invalid Argon2id parameters: {err}"))
          else kdf_result (
              p.argon2id params.memory_kib params.iterations params.parallelism
                (ascii "TLCK-PASSWORD-WRAP-v1" ++ (timelock_mask ++ passphrase)) params.salt))

  unfoldable pub wrap_file_key_with_password :
      Bytes → Bytes → Bytes → PasswordProtectionParams → Result Bytes
  wrap_file_key_with_password file_key timelock_mask passphrase params = do
    wrap_key ← derive_password_wrap_key params timelock_mask passphrase
    ok (xor_32 file_key wrap_key)

  unfoldable pub wrap_file_key_for_password_protected_lock :
      Bytes → Bytes → Bytes → PasswordProtectionParams → Result (Bytes × PasswordProtectionMetadata)
  wrap_file_key_for_password_protected_lock file_key timelock_mask passphrase params = do
    validate_lock_passphrase passphrase
    wrapped_key ← wrap_file_key_with_password file_key timelock_mask passphrase params
    ok (wrapped_key, metadata_v1 params)

  unfoldable pub unwrap_file_key_with_password :
      Bytes → Bytes → Bytes → PasswordProtectionParams → Result Bytes
  unwrap_file_key_with_password wrapped_key timelock_mask passphrase params = do
    wrap_key ← derive_password_wrap_key params timelock_mask passphrase
    ok (xor_32 wrapped_key wrap_key)

  -- `key_protection_material` of usecases/lock/payload_writer.rs, with the salt that was drawn.
  unfoldable pub key_protection_material :
      Bytes → Bytes → Option Bytes → Bytes → Result (Bytes × Option PasswordProtectionMetadata)
  key_protection_material file_key timelock_mask (some passphrase) salt = do
    params ← default_with_salt salt
    (wrapped_key, metadata) ←
        wrap_file_key_for_password_protected_lock file_key timelock_mask passphrase params
    ok (wrapped_key, some metadata)
  key_protection_material file_key timelock_mask none salt =
      ok (wrap_file_key_with_timelock_mask file_key timelock_mask, none)
