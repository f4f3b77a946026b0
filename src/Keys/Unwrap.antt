-- ===== src/Keys/Unwrap.antt =====
-- Unwrapping gives back the file key.
use timelocked.Common.{◌≡◌, [], Option, none, some, arith, length, ◌++◌}
use timelocked.Common.Bytes.{Bytes, ascii}
use timelocked.Base.{Result, ok, bind-inv, ◌>>=◌, ◌>>◌}
use timelocked.Primitives.{Primitives}
use timelocked.Primitives.Laws.{IsKdf}
use timelocked.Keys.Xor.{xor_32, xor_32-xor_32}
use timelocked.Keys.Params.{
  PasswordProtectionParams, PasswordProtectionMetadata, default_with_salt, metadata_v1,
}
use timelocked.Keys.Wrap.{
  derive_password_wrap_key, wrap_file_key_with_password, unwrap_file_key_with_password,
  wrap_file_key_for_password_protected_lock, wrap_file_key_with_timelock_mask,
  validate_lock_passphrase, key_protection_material,
}

module _ (p : Primitives) where
  -- How the file key is recovered from what a lock stored, by the password where it stored
  -- metadata.
  abbrev pub recover_key : Bytes → Bytes → Option PasswordProtectionMetadata → Bytes → Result Bytes
  recover_key wrapped_key mask none passphrase = ok (xor_32 wrapped_key mask)
  recover_key wrapped_key mask (some metadata) passphrase =
      unwrap_file_key_with_password p wrapped_key mask passphrase metadata.params

module _ (p : Primitives) (kdf : IsKdf p) where
  length-derive :
      (params : PasswordProtectionParams) (mask passphrase k : Bytes)
      → derive_password_wrap_key p params mask passphrase ≡ ok k
      → length k ≡ 32
  unfolding derive_password_wrap_key
  length-derive params mask passphrase k h = ground (
    arith,
    kdf.sized params.memory_kib params.iterations params.parallelism
        (ascii "TLCK-PASSWORD-WRAP-v1" ++ (mask ++ passphrase)) params.salt k,
  )

  unwrap-wrap :
      (file_key mask passphrase w : Bytes) (params : PasswordProtectionParams)
      → length file_key ≡ 32
      → wrap_file_key_with_password p file_key mask passphrase params ≡ ok w
      → unwrap_file_key_with_password p w mask passphrase params ≡ ok file_key
  unfolding wrap_file_key_with_password unwrap_file_key_with_password
  unwrap-wrap file_key mask passphrase w params size h =
      bind-inv (derive_password_wrap_key p params mask passphrase) _ h λ k e same.
        ground (arith, xor_32-xor_32 file_key k, length-derive params mask passphrase k e)

  -- The passphrase that the unlocker types.
  abbrev pub typed : Option Bytes → Bytes
  typed none = []
  typed (some passphrase) = passphrase

  -- The key that `key_protection_material` wrapped for a lock is recovered from what it returned:
  -- with the time-lock mask alone when the lock had no passphrase, and with the mask, the stored
  -- parameters and the same passphrase when it had one. File key and mask have 32 bytes, as has a
  -- key that Argon2id derives.
  pub recover-key_protection_material :
      (file_key mask salt : Bytes) (passphrase : Option Bytes) (w : Bytes)
      (metadata : Option PasswordProtectionMetadata)
      → length file_key ≡ 32
      → length mask ≡ 32
      → key_protection_material p file_key mask passphrase salt ≡ ok (w, metadata)
      → recover_key p w mask metadata (typed passphrase) ≡ ok file_key
  unfolding key_protection_material wrap_file_key_with_timelock_mask
      wrap_file_key_for_password_protected_lock
  recover-key_protection_material file_key mask salt none w metadata size same h =
      let stored : metadata ≡ none = cc in rw stored (ground (arith, xor_32-xor_32 file_key mask))
  recover-key_protection_material file_key mask salt (some passphrase) w metadata size same h =
      bind-inv (default_with_salt salt) _ h λ params e h1.
        bind-inv
          (validate_lock_passphrase passphrase
            >> (wrap_file_key_with_password p file_key mask passphrase params >>= λ k.
                ok (k, metadata_v1 params)))
          _ h1
          λ out e2 h2. bind-inv (validate_lock_passphrase passphrase) _ e2 λ u e3 h3.
            bind-inv (wrap_file_key_with_password p file_key mask passphrase params) _ h3 λ k e4 h4.
              let stored : metadata ≡ some (metadata_v1 params) = cc in
              let wrapped : k ≡ w = cc in
              rw (stored, ← wrapped) (unwrap-wrap file_key mask passphrase k params size e4)
