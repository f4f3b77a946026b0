-- ===== src/Unlock/Safety.antt =====
-- What an unlock leaves on the disk, and what it keeps of the time-lock mask and asks of the user.
use timelocked.Common.{
  ℕ, zero, suc, ◌+◌, ◌≡◌, refl, ◌⊎◌, inl, inr, Bool, true, false, Bool-cases, Option, none, some,
  arith, ltb,
}
use timelocked.Common.Bytes.{Bytes}
use mathlib.Core.Path.{subst}
use timelocked.Base.{Error, Result, ok, err, Polls, ensure_not_cancelled, bind-inv}
use timelocked.Primitives.{Primitives}
use timelocked.Keys.Params.{PasswordProtectionMetadata}
use timelocked.Stream.Decrypt.{ChunkDecryptionStats}
use timelocked.Artifact.Reader.{StoredTimelockedArtifact, read_timelocked_artifact_bytes}
use timelocked.Paths.FilePath.{FilePath}
use timelocked.Paths.Output.{resolve_available_output_path}
use timelocked.Paths.Available.{resolve_available_output_path-free}
use timelocked.Unlock.Request.{
  UnlockRequest, UnlockResponse, RecoveredPayload, recovered_file, recovered_text, PayloadKind,
  text_payload, file_payload, payload_kind, is_payload_authentication_error, max_password_attempts,
  resolve_recovered_file_path,
}
use timelocked.Disk.{Disk, Answers, persisted, create_dir_all}
use timelocked.Disk.Directories.{
  dir_of, OnlyDirs, OnlyDirs-same, OnlyDirs-trans, create_dir_all-OnlyDirs,
}
use timelocked.Unlock.Key.{Session, PasswordProvider, new_session}
use timelocked.Unlock.Execute.{
  AttemptPolls, Outcome, KeyRecovery, available, open_temp, persist_if, text_outcome, file_outcome,
  recovered, recover_to_path, recover_payload_once, after_attempt, attempt_with_password, attempts,
  recover_with, prepare, unlock_prepared, execute_with_cancel_and_password_provider,
}

module _ (disk : Disk) where
  abbrev pub IsFree : Option FilePath → Type 0
  IsFree none = Unit {0}
  IsFree (some path) = disk.exists path ≡ false

  -- What attempts that failed leave: for a file, directories on the way to its path.
  abbrev pub IsKept : PayloadKind → Option FilePath → Disk → Type 0
  IsKept text_payload found disk' = disk' ≡ disk
  IsKept (file_payload name) none disk' = disk' ≡ disk
  IsKept (file_payload name) (some path) disk' =
      (disk.exists path ≡ false) × OnlyDirs (dir_of path) disk disk'

  abbrev pub IsWritten : RecoveredPayload → Disk → Type 0
  IsWritten (recovered_text bytes) disk' = disk' ≡ disk
  IsWritten (recovered_file path) disk' =
      (disk.exists path ≡ false)
      × ((between : Disk) × OnlyDirs (dir_of path) disk between
          × ((bytes : Bytes) × (disk' ≡ persisted path bytes between)))

  abbrev pub IsOutcome : PayloadKind → Option FilePath → Outcome → Type 0
  IsOutcome kind found (err e, disk') = IsKept kind found disk'
  IsOutcome kind found (ok response, disk') = IsWritten response.recovered_payload disk'

  -- An error leaves the disk as it was, or with directories on the way to a path where nothing was.
  -- A text leaves it as it was. A file is put where nothing was, once such directories are made.
  abbrev pub IsClean : Outcome → Type 0
  IsClean (err e, disk') =
      (disk' ≡ disk)
      ⊎ ((path : FilePath) × (disk.exists path ≡ false) × OnlyDirs (dir_of path) disk disk')
  IsClean (ok response, disk') = IsWritten response.recovered_payload disk'

  IsOutcome-IsClean :
      (kind : PayloadKind) (found : Option FilePath) (outcome : Outcome)
      → IsOutcome kind found outcome
      → IsClean outcome
  IsOutcome-IsClean kind found (ok response, disk') h = h
  IsOutcome-IsClean text_payload found (err e, disk') h = inl h
  IsOutcome-IsClean (file_payload name) none (err e, disk') h = inl h
  IsOutcome-IsClean (file_payload name) (some path) (err e, disk') (free, dirs) =
      inr (path, free, dirs)

  IsFree-IsKept :
      (kind : PayloadKind) (found : Option FilePath) → IsFree found → IsKept kind found disk
  IsFree-IsKept text_payload found free = refl
  IsFree-IsKept (file_payload name) none free = refl
  IsFree-IsKept (file_payload name) (some path) free = (free, OnlyDirs-same (dir_of path) disk)

  persist_if-IsOutcome :
      (r : Result (Unit {0})) (name : Bytes) (path : FilePath) (stats : ChunkDecryptionStats)
      (bytes : Bytes) (between : Disk)
      → IsKept (file_payload name) (some path) between
      → IsOutcome (file_payload name) (some path) (persist_if r path stats bytes between)
  persist_if-IsOutcome (err e) name path stats bytes between kept = kept
  persist_if-IsOutcome (ok done) name path stats bytes between (free, dirs) =
      (free, (between, dirs, (bytes, refl)))

  available-IsFree :
      (lossy : Bytes → Bytes) (wanted found : Option FilePath)
      → available disk.exists lossy wanted ≡ ok found
      → IsFree found
  available-IsFree lossy none found h = let e : none ≡ found = ground arith in subst IsFree e tt
  available-IsFree lossy (some path) found h =
      bind-inv (resolve_available_output_path disk.exists lossy path) _ h λ result found_at same.
        let e : some result ≡ found = ground arith in
        subst IsFree e (resolve_available_output_path-free disk.exists lossy path result found_at)

  module _ (p : Primitives) where
    text_outcome-IsOutcome :
        (found : Option FilePath) (out : Result ChunkDecryptionStats × Bytes) (start : Disk)
        → start ≡ disk
        → IsOutcome text_payload found (text_outcome p out start)
    text_outcome-IsOutcome found (err e, bytes) start same = same
    text_outcome-IsOutcome found (ok stats, bytes) start same =
        elim (Bool-cases (p.is_utf8 bytes)) [
          | inl valid ↦ rw valid same
          | inr invalid ↦ rw invalid same
        ]

    file_outcome-IsOutcome :
        (answers : Answers) (polls : Polls) (name : Bytes) (path : FilePath)
        (out : Result ChunkDecryptionStats × Bytes) (start : Disk)
        → IsKept (file_payload name) (some path) start
        → IsOutcome (file_payload name) (some path) (file_outcome p answers polls path out start)
    file_outcome-IsOutcome answers polls name path (err e, bytes) start kept = kept
    file_outcome-IsOutcome answers polls name path (ok stats, bytes) start kept =
        persist_if-IsOutcome _ name path stats bytes start kept

    module _ (answers : Answers) (file : Bytes) (parsed : StoredTimelockedArtifact) where
      recover_to_path-IsOutcome :
          (ready : Result (Unit {0}) × Disk) (name : Bytes) (path : FilePath) (polls : AttemptPolls)
          (key : KeyRecovery) (session : Session)
          → IsKept (file_payload name) (some path) ready.1
          → IsOutcome
              (file_payload name)
              (some path)
              (recover_to_path p answers file parsed ready path polls key session).0
      recover_to_path-IsOutcome (err e, start) name path polls key session kept = kept
      recover_to_path-IsOutcome (ok done, start) name path polls key session kept =
          file_outcome-IsOutcome answers polls.persistence name path
            (recovered p answers file parsed polls key session).0 start kept

      recover_payload_once-IsOutcome :
          (kind : PayloadKind) (found : Option FilePath) (polls : AttemptPolls) (key : KeyRecovery)
          (start : Disk) (session : Session)
          → IsKept kind found start
          → IsOutcome kind found
              (recover_payload_once p answers file parsed kind found polls key start session).0
      unfolding recover_payload_once
      recover_payload_once-IsOutcome text_payload found polls key start session kept =
          text_outcome-IsOutcome found (recovered p answers file parsed polls key session).0 start
            kept
      recover_payload_once-IsOutcome (file_payload name) none polls key start session kept = kept
      recover_payload_once-IsOutcome (file_payload name) (some path) polls key start session
            (free, dirs) =
          recover_to_path-IsOutcome (open_temp answers (dir_of path) start) name path polls key
            session
            (
              free,
              OnlyDirs-trans (dir_of path) disk start (create_dir_all answers (dir_of path) start).1
                  dirs (create_dir_all-OnlyDirs answers (dir_of path) start),
            )

  module _ (p : Primitives) where
    after_attempt-IsOutcome :
        (kind : PayloadKind) (found : Option FilePath) (attempt : ℕ) (r : Result UnlockResponse)
        (disk' : Disk) (session : Session) (rest : Outcome × Session)
        → IsOutcome kind found (r, disk')
        → ((e : Error) → r ≡ err e → IsOutcome kind found rest.0)
        → IsOutcome kind found (after_attempt p attempt r disk' session rest).0
    after_attempt-IsOutcome kind found attempt (ok response) disk' session rest clean onward = clean
    after_attempt-IsOutcome kind found attempt (err e) disk' session rest clean onward =
        elim (Bool-cases (is_payload_authentication_error e)) [
          | inl authentication ↦ elim (Bool-cases (ltb attempt max_password_attempts)) [
            | inl more ↦ rw (authentication, more) (onward e refl)
            | inr last ↦ rw (authentication, last) clean
          ]
          | inr other ↦ rw other clean
        ]

    module _ (answers : Answers) (provider : Option PasswordProvider) (polls : ℕ → AttemptPolls)
        (request : UnlockRequest) (file : Bytes) (parsed : StoredTimelockedArtifact)
        (path : Option FilePath) where
      abbrev kind : PayloadKind
      kind = payload_kind parsed.superblock

      failed-IsKept :
          (r : Result UnlockResponse) (disk' : Disk) (e : Error)
          → r ≡ err e
          → IsOutcome kind path (r, disk')
          → IsKept kind path disk'
      failed-IsKept (ok response) disk' e h clean = absurd (cc)
      failed-IsKept (err other) disk' e h clean = clean

      attempts-IsOutcome :
          (protection : PasswordProtectionMetadata) (left attempt : ℕ) (failed : Bool)
          (start : Disk) (session : Session)
          → IsKept kind path start
          → IsOutcome kind path
              (attempts p answers provider polls request file parsed path protection left attempt
                failed start session).0
      unfolding attempts attempt_with_password
      attempts-IsOutcome protection zero attempt failed start session kept = kept
      attempts-IsOutcome protection (suc left) attempt failed start session kept =
          let once =
            attempt_with_password p answers provider polls request file parsed path protection
              attempt failed start session in
          let clean : IsOutcome kind path once.0 =
            recover_payload_once-IsOutcome p answers file parsed kind path (polls attempt) _ start
              session kept in
          after_attempt-IsOutcome kind path attempt once.0.0 once.0.1 once.1 _ clean λ e h.
            attempts-IsOutcome protection left (attempt + 1) true once.0.1 once.1
              (failed-IsKept once.0.0 once.0.1 e h clean)

      recover_with-IsOutcome :
          (protection : Option PasswordProtectionMetadata)
          → IsFree path
          → IsOutcome kind path
              (recover_with p answers provider polls request file parsed path protection disk).0
      recover_with-IsOutcome none free =
          recover_payload_once-IsOutcome p answers file parsed kind path (polls 1) _ disk
            new_session (IsFree-IsKept kind path free)
      recover_with-IsOutcome (some protection) free =
          attempts-IsOutcome protection max_password_attempts 1 false disk new_session
            (IsFree-IsKept kind path free)

    prepare-IsFree :
        (start : Polls) (request : UnlockRequest) (file : Bytes) (parsed : StoredTimelockedArtifact)
        (path : Option FilePath)
        → prepare p start request disk ≡ ok (file, parsed, path)
        → IsFree path
    prepare-IsFree start request file parsed path h =
        bind-inv (ensure_not_cancelled start) _ h λ u e0 h0.
          bind-inv (disk.contents request.input) _ h0 λ file' e1 h1.
            bind-inv (read_timelocked_artifact_bytes p file') _ h1 λ parsed' e2 h2.
              bind-inv (resolve_recovered_file_path request (payload_kind parsed'.superblock)) _ h2
                λ wanted e3 h3.
                  bind-inv (available disk.exists p.to_string_lossy wanted) _ h3 λ found e4 h4.
                    let same : found ≡ path = cc in
                    subst IsFree same (available-IsFree p.to_string_lossy wanted found e4)

-- Whatever the token, the system, the user and the file do, an unlock that fails changes no file: it
-- leaves the disk as it was, or but for directories that were made on the way to a path where
-- nothing was. One that recovers a text leaves the disk as it was. One that recovers a file adds,
-- but for directories on the way to it, one file, at the path that it returns, where nothing was.
pub execute-IsClean :
    (p : Primitives) (answers : Answers) (provider : Option PasswordProvider) (start : Polls)
    (polls : ℕ → AttemptPolls) (request : UnlockRequest) (disk : Disk)
    → IsClean disk
        (execute_with_cancel_and_password_provider p answers provider start polls request disk).0
unfolding execute_with_cancel_and_password_provider
execute-IsClean p answers provider start polls request disk = go (prepare p start request disk) refl
  where
    go :
        (r : Result (Bytes × StoredTimelockedArtifact × Option FilePath))
        → prepare p start request disk ≡ r
        → IsClean disk (unlock_prepared p answers provider polls request disk r).0
    go (err e) h = inl refl
    go (ok (file, parsed, path)) h =
        IsOutcome-IsClean disk (payload_kind parsed.superblock) path
          (recover_with p answers provider polls request file parsed path
            parsed.superblock.password_protection disk).0
          (recover_with-IsOutcome disk p answers provider polls request file parsed path
            parsed.superblock.password_protection
            (prepare-IsFree disk p start request file parsed path h))
