-- ===== src/Unlock/Verdict.antt =====
-- What the attempts of an unlock amount to: the puzzle is solved once, and the passwords are tried
-- one after the other with the mask it gave.
use timelocked.Common.{
  ℕ, zero, suc, ◌+◌, ◌≡◌, refl, sym, ◌∙◌, ap, ◌⊎◌, inl, inr, Bool, true, false, Bool-cases, Option,
  none, some, arith, ltb, if◌then◌else◌,
}
use timelocked.Common.Bytes.{Bytes}
use timelocked.Base.{Result, ok, err}
use timelocked.Primitives.{Primitives}
use timelocked.Keys.Params.{PasswordProtectionMetadata}
use timelocked.Puzzle.Service.{solve_puzzle_mask_with_cancel}
use timelocked.Artifact.Reader.{StoredTimelockedArtifact}
use timelocked.Artifact.Recovery.{recover_request, recover_payload_to_writer_with_cancel}
use timelocked.Paths.FilePath.{FilePath}
use timelocked.Disk.{Disk, Answers}
use timelocked.Unlock.Request.{
  UnlockRequest, PayloadKind, text_payload, file_payload, payload_kind,
  is_payload_authentication_error, max_password_attempts, password_payload_authentication_error,
}
use timelocked.Unlock.Key.{
  Session, PasswordProvider, new_session, puzzle_of, mask_or_solve, key_of_passphrase, with_mask,
  recover_password_protected_file_key,
}
use timelocked.Unlock.Execute.{
  AttemptPolls, Outcome, KeyRecovery, text_outcome, file_outcome, recover_to_path,
  recover_payload_once, after_attempt, prompt_context_of, attempt_with_password, attempts,
}
use timelocked.Unlock.Prompts.{once-keeps}

-- The first outcome that is not an authentication failure, among so many.
abbrev pub settle : Outcome → Outcome → Outcome
settle (ok response, disk) rest = (ok response, disk)
settle (err e, disk) rest = if is_payload_authentication_error e then rest else (err e, disk)

module _ (p : Primitives) where
  module _ (answers : Answers) (file : Bytes) (parsed : StoredTimelockedArtifact) where
    -- The outcome depends on the session by the key only.
    pub once-key :
        (kind : PayloadKind) (path : Option FilePath) (polls : AttemptPolls) (k k' : KeyRecovery)
        (disk : Disk) (s s' : Session)
        → (k (recover_request parsed.superblock) s).0
          ≡ (k' (recover_request parsed.superblock) s').0
        → (recover_payload_once p answers file parsed kind path polls k disk s).0
          ≡ (recover_payload_once p answers file parsed kind path polls k' disk s').0
    unfolding recover_payload_once
    once-key text_payload path polls k k' disk s s' h =
        ap
          (λ key.
            text_outcome p
              (recover_payload_to_writer_with_cancel p file parsed (λ r. key) polls.decryption)
              disk)
          h
    once-key (file_payload name) none polls k k' disk s s' h = refl
    once-key (file_payload name) (some path) polls k k' disk s s' h = ready _
      where
        ready :
            (r : Result (Unit {0}) × Disk)
            → (recover_to_path p answers file parsed r path polls k s).0
              ≡ (recover_to_path p answers file parsed r path polls k' s').0
        ready (err e, disk) = refl
        ready (ok done, disk) =
            ap
              (λ key.
                file_outcome p answers polls.persistence path
                  (recover_payload_to_writer_with_cancel p file parsed (λ r. key) polls.decryption)
                  disk)
              h

  module _ (answers : Answers) (provider : PasswordProvider) (polls : ℕ → AttemptPolls)
      (request : UnlockRequest) (file : Bytes) (parsed : StoredTimelockedArtifact)
      (path : Option FilePath) (protection : PasswordProtectionMetadata) (mask : Bytes) where
    -- One password, with the mask of the puzzle at hand.
    abbrev pub trial : ℕ → Bool → Disk → Outcome
    trial attempt failed disk =
        (recover_payload_once p answers file parsed (payload_kind parsed.superblock) path
          (polls attempt)
          (λ r session. (
            key_of_passphrase p r protection mask (
                provider (
                  prompt_context_of p answers (some provider) polls request file parsed path attempt
                    failed)),
            session,
          ))
          disk new_session).0

    abbrev pub first_verdict : ℕ → ℕ → Bool → Disk → Outcome
    first_verdict zero attempt failed disk = (err password_payload_authentication_error, disk)
    first_verdict (suc left) attempt failed disk =
        let (result, disk') = trial attempt failed disk in
        let rest = first_verdict left (attempt + 1) true disk' in settle (result, disk') rest

    abbrev IsMask : Session → Type 0
    IsMask session =
        (session.cached_timelock_mask ≡ none) ⊎ (session.cached_timelock_mask ≡ some mask)

    module _
        (solved : (attempt : ℕ)
          → solve_puzzle_mask_with_cancel p
              (puzzle_of (recover_request parsed.superblock))
              (polls attempt).key
            ≡ ok mask) where
      mask_or_solve-mask :
          (attempt : ℕ) (session : Session)
          → IsMask session
          → mask_or_solve p
              (polls attempt).key
              (recover_request parsed.superblock)
              session.cached_timelock_mask
            ≡ ok mask
      mask_or_solve-mask attempt session (inl e) = rw e (solved attempt)
      mask_or_solve-mask attempt session (inr e) = rw e refl

      -- An attempt is a trial, and keeps the mask.
      attempt-trial :
          (attempt : ℕ) (failed : Bool) (disk : Disk) (session : Session)
          → IsMask session
          → ((attempt_with_password p answers
                (some provider)
                polls
                request
                file
                parsed
                path
                protection
                attempt
                failed
                disk
                session).0
              ≡ trial attempt failed disk)
            × IsMask
                (attempt_with_password p answers
                  (some provider)
                  polls
                  request
                  file
                  parsed
                  path
                  protection
                  attempt
                  failed
                  disk
                  session).1
      unfolding attempt_with_password recover_password_protected_file_key
      attempt-trial attempt failed disk session here =
          let known = mask_or_solve-mask attempt session here in
          let kept : IsMask
              (with_mask p (recover_request parsed.superblock) protection (some provider)
                (prompt_context_of p answers (some provider) polls request file parsed path attempt
                  failed)
                session
                (mask_or_solve p (polls attempt).key (recover_request parsed.superblock)
                  session.cached_timelock_mask)).1 =
            rw known (inr refl) in
          (
            once-key answers file parsed (payload_kind parsed.superblock) path (polls attempt) _ _
                disk session new_session (rw known refl),
            once-keeps p answers file parsed IsMask (payload_kind parsed.superblock) path
                (polls attempt) _ disk session here kept,
          )

      after_attempt-settle :
          (attempt left : ℕ) (outcome rest' : Outcome) (session : Session)
          (rest : Outcome × Session)
          → attempt + left ≡ 3
          → (left ≡ 0 → rest' ≡ (err password_payload_authentication_error, outcome.1))
          → rest.0 ≡ rest'
          → (after_attempt p attempt outcome.0 outcome.1 session rest).0 ≡ settle outcome rest'
      after_attempt-settle attempt left (ok response, disk) rest' session rest sum end same = refl
      after_attempt-settle attempt left (err e, disk) rest' session rest sum end same =
          elim (Bool-cases (is_payload_authentication_error e)) [
            | inl authentication ↦ elim (Bool-cases (ltb attempt max_password_attempts)) [
              | inl more ↦ rw (authentication, more) same
              | inr last ↦ rw (authentication, last) (sym (end (ground arith)))
            ]
            | inr other ↦ rw other refl
          ]

      attempts-first_verdict :
          (left attempt : ℕ) (failed : Bool) (disk : Disk) (session : Session)
          → IsMask session
          → attempt + left ≡ 4
          → (attempts p answers
              (some provider)
              polls
              request
              file
              parsed
              path
              protection
              left
              attempt
              failed
              disk
              session).0
            ≡ first_verdict left attempt failed disk
      unfolding attempts
      attempts-first_verdict zero attempt failed disk session here sum = refl
      attempts-first_verdict (suc left) attempt failed disk session here sum =
          let once =
            attempt_with_password p answers (some provider) polls request file parsed path
              protection attempt failed disk session in
          let (same, kept) = attempt-trial attempt failed disk session here in
          let rest' : Disk → Outcome = λ d. first_verdict left (attempt + 1) true d in
          after_attempt-settle attempt left once.0 (rest' once.0.1) once.1 _ (omega arith)
            (λ none_left. rw none_left refl)
            (attempts-first_verdict left (attempt + 1) true once.0.1 once.1 kept (omega arith))
          ∙ ap (λ (o : Outcome). settle o (rest' o.1)) same

    -- Let the user answer the prompts, and let no cancellation stop the solver. Then the attempts of
    -- an unlock, which keep the mask that the first one solved for, have the outcome of trying at
    -- most three passwords in turn with the mask of the puzzle, each from the state that the one
    -- before left: the first outcome that is not an authentication failure counts, and after three
    -- failures it is the authentication error.
    pub attempts-eq-first_verdict :
        ((attempt : ℕ)
          → solve_puzzle_mask_with_cancel p
              (puzzle_of (recover_request parsed.superblock))
              (polls attempt).key
            ≡ ok mask)
        → (disk : Disk)
        → (attempts p answers
            (some provider)
            polls
            request
            file
            parsed
            path
            protection
            max_password_attempts
            1
            false
            disk
            new_session).0
          ≡ first_verdict max_password_attempts 1 false disk
    attempts-eq-first_verdict solved disk =
        attempts-first_verdict solved max_password_attempts 1 false disk new_session (inl refl) refl
