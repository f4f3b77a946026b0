-- ===== src/Unlock/Once.antt =====
-- An unlock that nothing hinders: the key is found at the first attempt, the payload decrypts and the
-- system puts the file in its place.
use timelocked.Common.{ℕ, ◌≡◌, refl, false, Option, none, some, []}
use timelocked.Common.Bytes.{Bytes}
use timelocked.Base.{ok, ensure_not_cancelled, is_cancelled}
use timelocked.Primitives.{Primitives}
use timelocked.Keys.Params.{PasswordProtectionMetadata}
use timelocked.Stream.Decrypt.{ChunkDecryptionStats}
use timelocked.Artifact.Reader.{StoredTimelockedArtifact, read_timelocked_artifact_bytes}
use timelocked.Artifact.Recovery.{
  RecoverFileKeyRequest, recover_request, recover_payload_to_writer_with_cancel,
}
use timelocked.Paths.FilePath.{FilePath}
use timelocked.Disk.{Disk, Answers, persisted, made, create_dir_all}
use timelocked.Disk.Directories.{dir_of}
use timelocked.Unlock.Request.{
  UnlockRequest, max_password_attempts, file_payload, payload_kind, resolve_recovered_file_path,
  out_or_in_dir,
}
use timelocked.Unlock.Key.{
  PasswordProvider, Session, new_session, recover_file_key_from_timelock,
  recover_password_protected_file_key,
}
use timelocked.Unlock.Execute.{
  AttemptPolls, Outcome, KeyRecovery, available, response_path, recover_payload_once,
  prompt_context_of, attempt_with_password, attempts, recover_with, prepare,
  execute_with_cancel_and_password_provider,
}

-- The system does what it is asked to for this path.
pub record Works (answers : Answers) (path : FilePath) : Type 0 where
  pub creates : answers.create_dir_all (dir_of path) ≡ ok tt
  pub opens : answers.new_temp_in (dir_of path) ≡ ok tt
  pub flushes : answers.flush ≡ ok tt
  pub persists : answers.persist path ≡ ok tt

abbrev pub never : ℕ → AttemptPolls
never attempt = record { key = []; decryption = []; persistence = [] }

-- The first attempt finds the key.
abbrev pub IsKeyFound :
    Primitives
    → Option PasswordProvider
    → FilePath
    → RecoverFileKeyRequest
    → Bytes
    → Option PasswordProtectionMetadata
    → Type 0
IsKeyFound p provider input request key none = recover_file_key_from_timelock p [] request ≡ ok key
IsKeyFound p provider input request key (some protection) =
    (recover_password_protected_file_key p [] protection provider
      (record {
        input = input;
        attempt = 1;
        max_attempts = max_password_attempts;
        previous_attempt_failed = false;
      })
      request new_session).0
    ≡ ok key

module _ (p : Primitives) (answers : Answers) (provider : Option PasswordProvider)
    (request : UnlockRequest) (disk : Disk) (file : Bytes) (parsed : StoredTimelockedArtifact)
    (name : Bytes) (path : FilePath) (key : Bytes) (stats : ChunkDecryptionStats) (bytes : Bytes)
    (works : Works answers path) (read : disk.contents request.input ≡ ok file)
    (parses : read_timelocked_artifact_bytes p file ≡ ok parsed)
    (named : payload_kind parsed.superblock ≡ file_payload name)
    (resolved : available disk.exists p.to_string_lossy
        (some (out_or_in_dir request name request.out))
      ≡ ok (some path))
    (recovers : recover_payload_to_writer_with_cancel p file parsed (λ r. ok key) []
      ≡ (ok stats, bytes)) where
  abbrev pub done_with : Outcome
  done_with = (ok (response_path path stats), persisted path bytes (made (dir_of path) disk))

  once-done :
      (attempt : ℕ) (k : KeyRecovery) (session : Session)
      → (k (recover_request parsed.superblock) session).0 ≡ ok key
      → (recover_payload_once p answers file parsed
          (payload_kind parsed.superblock)
          (some path)
          (never attempt)
          k
          disk
          session).0
        ≡ done_with
  unfolding recover_payload_once create_dir_all ensure_not_cancelled is_cancelled
  once-done attempt k session found =
      rw (named, works.creates, works.opens, found, recovers, works.flushes, works.persists) refl

  prepare-done : prepare p [] request disk ≡ ok (file, parsed, some path)
  unfolding resolve_recovered_file_path ensure_not_cancelled is_cancelled
  prepare-done = rw (read, parses, named, resolved) refl

  recover_with-done :
      (protection : Option PasswordProtectionMetadata)
      → IsKeyFound p provider request.input (recover_request parsed.superblock) key protection
      → (recover_with p answers provider never request file parsed (some path) protection disk).0
        ≡ done_with
  unfolding attempts attempt_with_password
  recover_with-done none found =
      once-done 1 (λ r session. (recover_file_key_from_timelock p [] r, session)) new_session found
  recover_with-done (some protection) found =
      let once =
        once-done 1
          (recover_password_protected_file_key p [] protection provider
            (prompt_context_of p answers provider never request file parsed (some path) 1 false))
          new_session found in
      rw once refl

  pub execute-done :
      IsKeyFound p provider request.input
        (recover_request parsed.superblock)
        key
        parsed.superblock.password_protection
      → (execute_with_cancel_and_password_provider p answers provider [] never request disk).0
        ≡ done_with
  unfolding execute_with_cancel_and_password_provider
  execute-done found =
      rw prepare-done (recover_with-done parsed.superblock.password_protection found)
