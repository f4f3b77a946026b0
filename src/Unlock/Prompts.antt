-- ===== src/Unlock/Prompts.antt =====
-- How often an unlock asks for a password, and what it keeps of the time-lock mask.
use timelocked.Common.{
  ℕ, zero, suc, ◌+◌, ◌≤◌, ◌≡◌, refl, ◌⊎◌, inl, inr, Bool, true, false, Bool-cases, Option, none,
  some, [], ◌∷◌, length, length-append, arith, ltb, replicate,
}
use timelocked.Common.Bytes.{Bytes}
use timelocked.Base.{Result, ok, err, Polls}
use timelocked.Primitives.{Primitives}
use timelocked.Keys.Params.{PasswordProtectionMetadata}
use timelocked.Artifact.Reader.{StoredTimelockedArtifact}
use timelocked.Artifact.Recovery.{RecoverFileKeyRequest, recover_request}
use timelocked.Paths.FilePath.{FilePath}
use timelocked.Unlock.Request.{
  UnlockRequest, UnlockResponse, PasswordPromptContext, PayloadKind, text_payload, file_payload,
  payload_kind, is_payload_authentication_error, max_password_attempts,
}
use timelocked.Disk.{Disk, Answers}
use timelocked.Unlock.Key.{
  Session, PasswordProvider, new_session, zeroize, zeroed, mask_or_solve, with_mask,
  recover_password_protected_file_key,
}
use timelocked.Unlock.Execute.{
  AttemptPolls, Outcome, KeyRecovery, recover_to_path, recover_payload_once, after_attempt,
  attempt_with_password, attempts, recover_with, prepare, unlock_prepared,
  execute_with_cancel_and_password_provider,
}

-- The mask is not there, or is zeros.
abbrev pub IsWiped : Session → Type 0
IsWiped session =
    (session.cached_timelock_mask ≡ none) ⊎ (session.cached_timelock_mask ≡ some (replicate 32 0))

zeroize-IsWiped : (session : Session) → IsWiped (zeroize session)
unfolding zeroize
zeroize-IsWiped session = wiped session.cached_timelock_mask
  where
    wiped : (mask : Option Bytes) → (zeroed mask ≡ none) ⊎ (zeroed mask ≡ some (replicate 32 0))
    wiped none = inl refl
    wiped (some mask) = inr refl

-- At most n prompts were made, and the mask is wiped.
abbrev pub IsDone : ℕ → Session → Type 0
IsDone n session = (length session.prompts ≤ n) × IsWiped session

zeroize-IsDone :
    (n : ℕ) (session : Session) → length session.prompts ≤ n → IsDone n (zeroize session)
unfolding zeroize
zeroize-IsDone n session few = (few, zeroize-IsWiped session)

-- A round adds at most one prompt.
abbrev IsOneMore : Session → Session → Type 0
IsOneMore before after = length after.prompts ≤ suc (length before.prompts)

module _ (p : Primitives) where
  recover-IsOneMore :
      (polls : Polls) (protection : PasswordProtectionMetadata) (provider : Option PasswordProvider)
      (context : PasswordPromptContext) (request : RecoverFileKeyRequest) (session : Session)
      → IsOneMore session
          (recover_password_protected_file_key p polls protection provider context request
            session).1
  unfolding recover_password_protected_file_key
  recover-IsOneMore polls protection provider context request session =
      solved (mask_or_solve p polls request session.cached_timelock_mask) provider
    where
      solved :
          (mask : Result Bytes) (provider : Option PasswordProvider)
          → IsOneMore session (with_mask p request protection provider context session mask).1
      solved (err e) provider = omega arith
      solved (ok mask) none = omega arith
      solved (ok mask) (some provider) = omega (arith, length-append session.prompts (context ∷ []))

  module _ (answers : Answers) (file : Bytes) (parsed : StoredTimelockedArtifact) where
    -- A session is as it was or as the recovery of the key leaves it.
    pub once-keeps :
        (P : Session → Type 0) (kind : PayloadKind) (path : Option FilePath) (polls : AttemptPolls)
        (key : KeyRecovery) (disk : Disk) (session : Session)
        → P session
        → P (key (recover_request parsed.superblock) session).1
        → P (recover_payload_once p answers file parsed kind path polls key disk session).1
    unfolding recover_payload_once
    once-keeps P text_payload path polls key disk session same h = h
    once-keeps P (file_payload name) none polls key disk session same h = same
    once-keeps P (file_payload name) (some path) polls key disk session same h = ready _
      where
        ready :
            (r : Result (Unit {0}) × Disk)
            → P (recover_to_path p answers file parsed r path polls key session).1
        ready (err e, disk) = same
        ready (ok done, disk) = h

  after_attempt-IsDone :
      (n attempt : ℕ) (r : Result UnlockResponse) (disk : Disk) (session : Session)
      (rest : Outcome × Session)
      → length session.prompts ≤ n
      → IsDone n rest.1
      → IsDone n (after_attempt p attempt r disk session rest).1
  after_attempt-IsDone n attempt (ok response) disk session rest few done =
      zeroize-IsDone n session few
  after_attempt-IsDone n attempt (err e) disk session rest few done =
      let wiped = zeroize-IsDone n session few in
      elim (Bool-cases (is_payload_authentication_error e)) [
        | inl authentication ↦ elim (Bool-cases (ltb attempt max_password_attempts)) [
          | inl more ↦ rw (authentication, more) done
          | inr last ↦ rw (authentication, last) wiped
        ]
        | inr other ↦ rw other wiped
      ]

  module _ (answers : Answers) (provider : Option PasswordProvider) (polls : ℕ → AttemptPolls)
      (request : UnlockRequest) (file : Bytes) (parsed : StoredTimelockedArtifact)
      (path : Option FilePath) where
    attempts-IsDone :
        (protection : PasswordProtectionMetadata) (left attempt : ℕ) (failed : Bool) (disk : Disk)
        (session : Session)
        → IsDone
            (left + length session.prompts)
            (attempts p answers provider polls request file parsed path protection left attempt
              failed disk session).1
    unfolding attempts attempt_with_password
    attempts-IsDone protection zero attempt failed disk session =
        zeroize-IsDone (0 + length session.prompts) session (omega arith)
    attempts-IsDone protection (suc left) attempt failed disk session =
        let once =
          attempt_with_password p answers provider polls request file parsed path protection attempt
            failed disk session in
        let few : length once.1.prompts ≤ suc (length session.prompts) =
          once-keeps answers file parsed (IsOneMore session) (payload_kind parsed.superblock) path
            (polls attempt) _ disk session (omega arith)
            (recover-IsOneMore _ protection provider _ _ session) in
        let (count, wiped) = attempts-IsDone protection left (attempt + 1) true once.0.1 once.1 in
        after_attempt-IsDone (suc left + length session.prompts) attempt once.0.0 once.0.1 once.1 _
          (omega arith) (omega arith, wiped)

    recover_with-IsDone :
        (protection : Option PasswordProtectionMetadata) (disk : Disk)
        → IsDone 3
            (recover_with p answers provider polls request file parsed path protection disk).1
    recover_with-IsDone none disk =
        once-keeps answers file parsed (IsDone 3) (payload_kind parsed.superblock) path (polls 1) _
          disk new_session (omega arith, inl refl) (omega arith, inl refl)
    recover_with-IsDone (some protection) disk =
        attempts-IsDone protection max_password_attempts 1 false disk new_session

-- Whatever happens, an unlock asks for a password at most three times, and when it returns, the
-- time-lock mask that it kept between the attempts is gone or is overwritten by zeros.
pub execute-IsDone :
    (p : Primitives) (answers : Answers) (provider : Option PasswordProvider) (start : Polls)
    (polls : ℕ → AttemptPolls) (request : UnlockRequest) (disk : Disk)
    → IsDone max_password_attempts
        (execute_with_cancel_and_password_provider p answers provider start polls request disk).1
unfolding execute_with_cancel_and_password_provider
execute-IsDone p answers provider start polls request disk = go (prepare p start request disk)
  where
    go :
        (r : Result (Bytes × StoredTimelockedArtifact × Option FilePath))
        → IsDone max_password_attempts (unlock_prepared p answers provider polls request disk r).1
    go (err e) = (omega arith, inl refl)
    go (ok (file, parsed, path)) =
        recover_with-IsDone p answers provider polls request file parsed path
          parsed.superblock.password_protection disk
