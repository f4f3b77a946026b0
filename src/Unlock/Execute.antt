-- ===== src/Unlock/Execute.antt =====
-- usecases/unlock.rs: `recover_payload_once` and the attempts of
-- `execute_with_cancel_and_password_provider`. Progress is left out.
use timelocked.Common.{
  ℕ, zero, suc, ◌+◌, Bool, true, false, ◌&&◌, Option, none, some, ltb, if◌then◌else◌,
}
use timelocked.Common.Bytes.{Bytes, ascii}
use timelocked.Base.{
  Result, ok, err, invalid_format, text, Polls, ensure_not_cancelled, ◌>>=◌, ◌>>◌,
}
use timelocked.Primitives.{Primitives}
use timelocked.Keys.Params.{PasswordProtectionMetadata}
use timelocked.Stream.Decrypt.{ChunkDecryptionStats}
use timelocked.Artifact.Reader.{StoredTimelockedArtifact, read_timelocked_artifact_bytes}
use timelocked.Artifact.Recovery.{
  RecoverFileKeyRequest, recover_request, recover_payload_to_writer_with_cancel,
}
use timelocked.Paths.FilePath.{FilePath, parent, path_of}
use timelocked.Paths.Output.{resolve_available_output_path}
use timelocked.Unlock.Request.{
  UnlockRequest, UnlockResponse, recovered_file, recovered_text, PasswordPromptContext, PayloadKind,
  text_payload, file_payload, payload_kind, max_password_attempts, or_else,
  resolve_recovered_file_path, is_payload_authentication_error,
  password_payload_authentication_error,
}
use timelocked.Disk.{Disk, Answers, persisted, create_dir_all}
use timelocked.Unlock.Key.{
  Session, PasswordProvider, new_session, zeroize, recover_file_key_from_timelock,
  recover_password_protected_file_key,
}

-- What the token answers in one `recover_payload_once`: while the key is recovered, while the
-- payload is decrypted, and before it is persisted.
pub record AttemptPolls : Type 0 where
  pub key : Polls
  pub decryption : Polls
  pub persistence : Polls

-- A result, and the disk that it leaves.
abbrev pub Outcome : Type 0
Outcome = Result UnlockResponse × Disk

abbrev pub KeyRecovery : Type 0
KeyRecovery = RecoverFileKeyRequest → Session → Result Bytes × Session

-- `resolve_available_output_path` where there is a path.
abbrev pub available :
    (FilePath → Bool) → (Bytes → Bytes) → Option FilePath → Result (Option FilePath)
available exists to_string_lossy none = ok none
available exists to_string_lossy (some path) = do
  path ← resolve_available_output_path exists to_string_lossy path
  ok (some path)

-- `create_dir_all` and a temporary file in the directory.
abbrev pub open_temp : Answers → FilePath → Disk → Result (Unit {0}) × Disk
open_temp answers output_parent disk =
    let (created, disk') = create_dir_all answers output_parent disk in
    ((created >> answers.new_temp_in output_parent), disk')

abbrev pub response_path : FilePath → ChunkDecryptionStats → UnlockResponse
response_path path stats = record {
  recovered_payload = recovered_file path;
  recovered_bytes = stats.plaintext_bytes;
}

-- Persisting what was recovered, if the system and the token let it.
abbrev pub persist_if : Result (Unit {0}) → FilePath → ChunkDecryptionStats → Bytes → Disk → Outcome
persist_if (err e) path stats bytes disk = (err e, disk)
persist_if (ok done) path stats bytes disk =
    (ok (response_path path stats), persisted path bytes disk)

module _ (p : Primitives) where
  abbrev pub text_outcome : Result ChunkDecryptionStats × Bytes → Disk → Outcome
  text_outcome (err e, bytes) disk = (err e, disk)
  text_outcome (ok stats, bytes) disk = (
    (if p.is_utf8 bytes
        then ok (record {
          recovered_payload = recovered_text bytes;
          recovered_bytes = stats.plaintext_bytes;
        })
        else err (invalid_format (text "recovered text payload is not valid UTF-8"))),
    disk,
  )

  abbrev pub file_outcome :
      Answers → Polls → FilePath → Result ChunkDecryptionStats × Bytes → Disk → Outcome
  file_outcome answers polls output_path (err e, bytes) disk = (err e, disk)
  file_outcome answers polls output_path (ok stats, bytes) disk =
      persist_if (answers.flush >> (ensure_not_cancelled polls >> answers.persist output_path))
        output_path stats bytes disk

  module _ (answers : Answers) (file : Bytes) (parsed : StoredTimelockedArtifact) where
    abbrev pub recovered :
        AttemptPolls → KeyRecovery → Session → (Result ChunkDecryptionStats × Bytes) × Session
    recovered polls recover_file_key session =
        let (key, session') = recover_file_key (recover_request parsed.superblock) session in
        (
          recover_payload_to_writer_with_cancel p file parsed (λ request. key) polls.decryption,
          session',
        )

    abbrev pub recover_to_path :
        Result (Unit {0}) × Disk
        → FilePath
        → AttemptPolls
        → KeyRecovery
        → Session
        → Outcome × Session
    recover_to_path (err e, disk) output_path polls recover_file_key session =
        ((err e, disk), session)
    recover_to_path (ok ready, disk) output_path polls recover_file_key session =
        let (written, session') = recovered polls recover_file_key session in
        (file_outcome answers polls.persistence output_path written disk, session')

    unfoldable pub recover_payload_once :
        PayloadKind
        → Option FilePath
        → AttemptPolls
        → KeyRecovery
        → Disk
        → Session
        → Outcome × Session
    recover_payload_once text_payload recovered_file_path polls recover_file_key disk session =
        let (written, session') = recovered polls recover_file_key session in
        (text_outcome written disk, session')
    recover_payload_once (file_payload name) none polls recover_file_key disk session = (
      (err (invalid_format (text "missing recovered file path for file payload unlock")), disk),
      session,
    )
    recover_payload_once (file_payload name) (some output_path) polls recover_file_key disk
          session =
        let output_parent = or_else (parent output_path) (path_of (ascii ".")) in
        recover_to_path (open_temp answers output_parent disk) output_path polls recover_file_key
          session

  -- The arms of the `match` behind an attempt; `rest` is the rounds to come.
  abbrev pub after_attempt :
      ℕ → Result UnlockResponse → Disk → Session → Outcome × Session → Outcome × Session
  after_attempt attempt (ok response) disk session rest = ((ok response, disk), zeroize session)
  after_attempt attempt (err e) disk session rest =
      if is_payload_authentication_error e && ltb attempt max_password_attempts
      then rest
      else if is_payload_authentication_error e
      then ((err password_payload_authentication_error, disk), zeroize session)
      else ((err e, disk), zeroize session)

  module _ (answers : Answers) (provider : Option PasswordProvider) (polls : ℕ → AttemptPolls)
      (request : UnlockRequest) (file : Bytes) (parsed : StoredTimelockedArtifact)
      (recovered_file_path : Option FilePath) where
    abbrev pub prompt_context_of : ℕ → Bool → PasswordPromptContext
    prompt_context_of attempt previous_attempt_failed = record {
      input = request.input;
      attempt = attempt;
      max_attempts = max_password_attempts;
      previous_attempt_failed = previous_attempt_failed;
    }

    unfoldable pub attempt_with_password :
        PasswordProtectionMetadata → ℕ → Bool → Disk → Session → Outcome × Session
    attempt_with_password password_protection attempt previous_attempt_failed disk session =
        recover_payload_once answers file parsed (payload_kind parsed.superblock)
          recovered_file_path (polls attempt)
          (recover_password_protected_file_key p (polls attempt).key password_protection provider
            (prompt_context_of attempt previous_attempt_failed))
          disk session

    -- `for attempt in 1..=MAX_PASSWORD_ATTEMPTS`, by the rounds that are left.
    unfoldable pub attempts :
        PasswordProtectionMetadata → ℕ → ℕ → Bool → Disk → Session → Outcome × Session
    attempts password_protection zero attempt previous_attempt_failed disk session =
        ((err password_payload_authentication_error, disk), zeroize session)
    attempts password_protection (suc left) attempt previous_attempt_failed disk session =
        let ((result, disk'), session') =
          attempt_with_password password_protection attempt previous_attempt_failed disk session in
        let rest = attempts password_protection left (attempt + 1) true disk' session' in
        after_attempt attempt result disk' session' rest

    abbrev pub recover_with : Option PasswordProtectionMetadata → Disk → Outcome × Session
    recover_with none disk =
        recover_payload_once answers file parsed (payload_kind parsed.superblock)
          recovered_file_path (polls 1)
          (λ request session. (recover_file_key_from_timelock p (polls 1).key request, session))
          disk new_session
    recover_with (some password_protection) disk =
        attempts password_protection max_password_attempts 1 false disk new_session

  -- What is found before a key is recovered: the file, the artifact and the path to write.
  abbrev pub prepare :
      Polls → UnlockRequest → Disk → Result (Bytes × StoredTimelockedArtifact × Option FilePath)
  prepare start request disk = do
    ensure_not_cancelled start
    file ← disk.contents request.input
    parsed ← read_timelocked_artifact_bytes p file
    wanted ← resolve_recovered_file_path request (payload_kind parsed.superblock)
    recovered_file_path ← available disk.exists p.to_string_lossy wanted
    ok (file, parsed, recovered_file_path)

  abbrev pub unlock_prepared :
      Answers
      → Option PasswordProvider
      → (ℕ → AttemptPolls)
      → UnlockRequest
      → Disk
      → Result (Bytes × StoredTimelockedArtifact × Option FilePath)
      → Outcome × Session
  unlock_prepared answers provider polls request disk (err e) = ((err e, disk), new_session)
  unlock_prepared answers provider polls request disk (ok (file, parsed, recovered_file_path)) =
      recover_with answers provider polls request file parsed recovered_file_path
        parsed.superblock.password_protection disk

  unfoldable pub execute_with_cancel_and_password_provider :
      Answers
      → Option PasswordProvider
      → Polls
      → (ℕ → AttemptPolls)
      → UnlockRequest
      → Disk
      → Outcome × Session
  execute_with_cancel_and_password_provider answers provider start polls request disk =
      unlock_prepared answers provider polls request disk (prepare start request disk)
