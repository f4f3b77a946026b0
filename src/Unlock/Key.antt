-- ===== src/Unlock/Key.antt =====
-- usecases/unlock.rs: the file key, from the puzzle alone or with a password. The mask of a solved
-- puzzle is kept for the attempts to come.
use timelocked.Common.{Option, none, some, List, [], ◌∷◌, ◌++◌, replicate}
use timelocked.Common.Bytes.{Bytes}
use timelocked.Base.{Result, ok, err, invalid_argument, text, Polls, ◌>>=◌}
use timelocked.Primitives.{Primitives}
use timelocked.Keys.Params.{PasswordProtectionMetadata}
use timelocked.Keys.Wrap.{unwrap_file_key_with_password}
use timelocked.Puzzle.Service.{
  TimelockPuzzleMaterial, solve_puzzle_mask_with_cancel, unwrap_key_with_cancel,
}
use timelocked.Artifact.Recovery.{RecoverFileKeyRequest}
use timelocked.Unlock.Request.{PasswordPromptContext}

-- The caller's password prompt.
abbrev pub PasswordProvider : Type 0
PasswordProvider = PasswordPromptContext → Result Bytes

-- The cached mask, and the prompts that were made.
pub record Session : Type 0 where
  pub cached_timelock_mask : Option Bytes
  pub prompts : List PasswordPromptContext

abbrev pub new_session : Session
new_session = record { cached_timelock_mask = none; prompts = [] }

abbrev pub zeroed : Option Bytes → Option Bytes
zeroed none = none
zeroed (some mask) = some (replicate 32 0)

-- `mask.zeroize()` where there is one
unfoldable pub zeroize : Session → Session
zeroize session = record session { cached_timelock_mask = zeroed session.cached_timelock_mask }

abbrev pub puzzle_of : RecoverFileKeyRequest → TimelockPuzzleMaterial
puzzle_of request = record {
  modulus_n = request.material.modulus_n;
  base_a = request.material.base_a;
  wrapped_key = request.material.wrapped_key;
  iterations = request.iterations;
  modulus_bits = request.modulus_bits;
}

module _ (p : Primitives) where
  unfoldable pub recover_file_key_from_timelock : Polls → RecoverFileKeyRequest → Result Bytes
  recover_file_key_from_timelock polls request = unwrap_key_with_cancel p (puzzle_of request) polls

  abbrev pub mask_or_solve : Polls → RecoverFileKeyRequest → Option Bytes → Result Bytes
  mask_or_solve polls request (some mask) = ok mask
  mask_or_solve polls request none = solve_puzzle_mask_with_cancel p (puzzle_of request) polls

  -- The key under a password that was typed.
  abbrev pub key_of_passphrase :
      RecoverFileKeyRequest → PasswordProtectionMetadata → Bytes → Result Bytes → Result Bytes
  key_of_passphrase request password_protection mask typed = do
    passphrase ← typed
    unwrap_file_key_with_password p request.material.wrapped_key mask passphrase
        password_protection.params

  abbrev pub prompt_and_unwrap :
      RecoverFileKeyRequest
      → PasswordProtectionMetadata
      → Option PasswordProvider
      → PasswordPromptContext
      → Session
      → Bytes
      → Result Bytes × Session
  prompt_and_unwrap request password_protection none prompt_context session mask =
      (err (invalid_argument (text "password required to unlock this file")), session)
  prompt_and_unwrap request password_protection (some provider) prompt_context session mask = (
    key_of_passphrase request password_protection mask (provider prompt_context),
    record session { prompts = session.prompts ++ (prompt_context ∷ []) },
  )

  abbrev pub with_mask :
      RecoverFileKeyRequest
      → PasswordProtectionMetadata
      → Option PasswordProvider
      → PasswordPromptContext
      → Session
      → Result Bytes
      → Result Bytes × Session
  with_mask request password_protection provider prompt_context session (err e) = (err e, session)
  with_mask request password_protection provider prompt_context session (ok mask) =
      prompt_and_unwrap request password_protection provider prompt_context
        (record session { cached_timelock_mask = some mask }) mask

  unfoldable pub recover_password_protected_file_key :
      Polls
      → PasswordProtectionMetadata
      → Option PasswordProvider
      → PasswordPromptContext
      → RecoverFileKeyRequest
      → Session
      → Result Bytes × Session
  recover_password_protected_file_key polls password_protection provider prompt_context request
        session =
      with_mask request password_protection provider prompt_context session
        (mask_or_solve polls request session.cached_timelock_mask)
