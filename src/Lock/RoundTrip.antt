-- ===== src/Lock/RoundTrip.antt =====
-- A file that is locked and unlocked: usecases/lock/payload_writer.rs and usecases/unlock.rs.
use timelocked.Common.{
  ℕ, ◌+◌, ◌-◌, ◌*◌, ◌%◌, ◌^◌, ◌≤◌, ◌<◌, ◌≡◌, refl, true, Option, none, some, [], ◌++◌, length,
  arith,
}
use timelocked.Common.Bytes.{Bytes}
use timelocked.Base.{ok}
use timelocked.Primitives.{Primitives}
use timelocked.Primitives.Laws.{IsAead, IsBigEndian, IsChecksum, IsDigest, IsKdf}
use timelocked.Keys.Params.{PasswordProtectionMetadata}
use timelocked.Keys.Unwrap.{recover_key, typed, recover-key_protection_material}
use timelocked.Puzzle.Service.{
  CreatedTimelockPuzzle, create_puzzle_and_derive_mask, solve_puzzle_mask_with_cancel,
  derive_key_mask, unwrap_key_with_cancel,
}
use timelocked.Puzzle.Shortcut.{solve-create_puzzle}
use timelocked.Region.Reconstruct.{reconstruct_payload_region}
use timelocked.Superblock.Body.{SuperblockBody, max_superblock_body_len_bytes}
use timelocked.Superblock.Encode.{encode_superblock_body}
use timelocked.Superblock.RoundTrip.{IsBody}
use timelocked.Artifact.Notice.{default_notice_text}
use timelocked.Artifact.Writer.{LockArtifactRequest, superblock_of}
use timelocked.Artifact.Recovery.{recover_request}
use timelocked.Artifact.Locate.{artifact_of}
use timelocked.Artifact.Written.{Written}
use timelocked.Artifact.Unlocked.{recover-artifact_of}
use timelocked.Paths.FilePath.{FilePath}
use timelocked.Disk.{Disk, Answers, persisted, made}
use timelocked.Disk.Directories.{dir_of}
use timelocked.Unlock.Request.{
  UnlockRequest, payload_kind, recovered_file, out_or_in_dir, PasswordPromptContext,
}
use timelocked.Unlock.Key.{
  PasswordProvider, new_session, puzzle_of, recover_file_key_from_timelock,
  recover_password_protected_file_key,
}
use timelocked.Unlock.Execute.{available, execute_with_cancel_and_password_provider}
use timelocked.Unlock.Once.{Works, never, IsKeyFound, execute-done}
use timelocked.Lock.Shards.{choose_rs_shard_bytes_for_protected_stream_len}
use timelocked.Lock.Staging.{LockRequest, StagedLockInput}
use timelocked.Lock.Payload.{Draws, PayloadWritePlan, artifact_request}
use timelocked.Lock.Written.{staged_source, LockedPayload}

-- What the creator of a puzzle keeps of its request.
created-parts :
    (p : Primitives) (lcm : ℕ → ℕ → ℕ) (prime_p prime_q a iterations modulus_bits : ℕ)
    (puzzle : CreatedTimelockPuzzle)
    → IsDigest p
    → create_puzzle_and_derive_mask p lcm prime_p prime_q a iterations modulus_bits ≡ ok puzzle
    → (puzzle.iterations ≡ iterations) × (length puzzle.solution_mask ≡ 32)
unfolding create_puzzle_and_derive_mask derive_key_mask
created-parts p lcm prime_p prime_q a iterations modulus_bits puzzle digest h = ground (
  arith,
  digest.sized (
      p.to_bytes_be (a ^ (2 ^ iterations % lcm (prime_p - 1) (prime_q - 1)) % (prime_p * prime_q))),
)

module _ (p : Primitives) (draws : Draws) (answers : Answers) (staged_input : StagedLockInput)
    (request : LockRequest) (plan : PayloadWritePlan) (file : Bytes)
    (l : LockedPayload p draws answers staged_input request plan file) where
  abbrev pub written_request : LockArtifactRequest
  written_request =
      artifact_request draws staged_input plan l.puzzle l.wrapped_key l.password_protection
        (choose_rs_shard_bytes_for_protected_stream_len l.stream_len)

  module _ (digest : IsDigest p) (kdf : IsKdf p) (sized_key : length draws.file_key ≡ 32)
      (period : draws.base_a ^ (draws.lcm (draws.prime_p - 1) (draws.prime_q - 1))
          % (draws.prime_p * draws.prime_q)
        ≡ 1 % (draws.prime_p * draws.prime_q))
      (stream_len region_len : ℕ) where
    abbrev body : SuperblockBody
    body = superblock_of written_request stream_len region_len

    solved :
        solve_puzzle_mask_with_cancel p (puzzle_of (recover_request body)) []
        ≡ ok l.puzzle.solution_mask
    unfolding superblock_of
    solved =
        let (same, sized) =
          created-parts p draws.lcm draws.prime_p draws.prime_q draws.base_a plan.iterations
            request.modulus_bits l.puzzle digest l.created in
        rw (← same) (
          solve-create_puzzle p draws.lcm draws.prime_p draws.prime_q draws.base_a period
            plan.iterations request.modulus_bits l.puzzle l.wrapped_key l.created)

    recovered_key :
        recover_key p l.wrapped_key l.puzzle.solution_mask l.password_protection
          (typed p kdf request.password)
        ≡ ok draws.file_key
    recovered_key =
        let (same, sized) =
          created-parts p draws.lcm draws.prime_p draws.prime_q draws.base_a plan.iterations
            request.modulus_bits l.puzzle digest l.created in
        recover-key_protection_material p kdf draws.file_key l.puzzle.solution_mask draws.salt
          request.password l.wrapped_key l.password_protection sized_key sized l.wrapped

    found_without :
        recover_key p l.wrapped_key l.puzzle.solution_mask none (typed p kdf request.password)
          ≡ ok draws.file_key
        → recover_file_key_from_timelock p [] (recover_request body) ≡ ok draws.file_key
    unfolding recover_file_key_from_timelock unwrap_key_with_cancel superblock_of
    found_without h = rw solved h

    found_with :
        (protection : PasswordProtectionMetadata) (provider : PasswordProvider)
        (context : PasswordPromptContext)
        → recover_key p l.wrapped_key l.puzzle.solution_mask
            (some protection)
            (typed p kdf request.password)
          ≡ ok draws.file_key
        → provider context ≡ ok (typed p kdf request.password)
        → (recover_password_protected_file_key p [] protection
            (some provider)
            context
            (recover_request body)
            new_session).0
          ≡ ok draws.file_key
    unfolding recover_password_protected_file_key superblock_of
    found_with protection provider context h types = rw (solved, types) h

    found :
        (provider : PasswordProvider)
        → ((context : PasswordPromptContext) → provider context ≡ ok (typed p kdf request.password))
        → (input : FilePath) (protection : Option PasswordProtectionMetadata)
        → recover_key p l.wrapped_key l.puzzle.solution_mask protection
            (typed p kdf request.password)
          ≡ ok draws.file_key
        → IsKeyFound p (some provider) input (recover_request body) draws.file_key protection
    found provider types input none h = found_without h
    found provider types input (some protection) h = found_with protection provider _ h (types _)

  -- What a lock made of a staged file (`LockedPayload`, `Written`) is unlocked, also where its payload
  -- region is replaced by one of its length that `reconstruct_payload_region` rebuilds the stream
  -- from. An unlock that reads it, at whose prompts the user types the passphrase of the lock (the
  -- empty one where the lock had none), which nothing cancels, whose output path resolves to a free
  -- one, and which the system lets create, open, flush and persist, makes the
  -- directories above that path, puts the staged bytes at it and returns it and their number. The libraries keep their promises, the base to the least
  -- common multiple of p - 1 and q - 1 is 1 modulo p q, the file key has 32 bytes and nonces 24,
  -- the staged file has a name, the superblock is in range and at most 1 MiB long, the default
  -- notice is UTF-8, and the file is below 2 ^ 64 bytes.
  pub unlock-write_payload_artifacts :
      IsAead p
      → IsBigEndian p
      → IsChecksum p
      → IsDigest p
      → (kdf : IsKdf p) → length draws.file_key ≡ 32
      → (sized_nonces : (i : ℕ) → length (draws.nonces i) ≡ 24)
      → draws.base_a ^ (draws.lcm (draws.prime_p - 1) (draws.prime_q - 1))
          % (draws.prime_p * draws.prime_q)
        ≡ 1 % (draws.prime_p * draws.prime_q)
      → (w : Written p draws.nonces draws.polls
          (staged_source p draws answers staged_input request plan)
          written_request
          file)
      → (bytes : Bytes)
      → encode_superblock_body p (superblock_of written_request w.stream_len w.region_len)
        ≡ ok bytes
      → length bytes ≤ max_superblock_body_len_bytes
      → IsBody p (superblock_of written_request w.stream_len w.region_len)
      → p.is_utf8 default_notice_text ≡ true
      → length w.notice + (12 + length bytes) + w.region_len + (12 + length bytes) < 2 ^ 64
      → (region' : Bytes) → length region' ≡ w.region_len
      → reconstruct_payload_region p written_request.payload_region_params region' w.stream_len
        ≡ ok w.stream
      → (name : Bytes) → staged_input.original_filename ≡ some name
      → (unlock : UnlockRequest) (disk : Disk) (path : FilePath) (system : Answers)
        (provider : PasswordProvider)
      → disk.contents unlock.input ≡ ok ((w.notice ++ w.start_copy) ++ (region' ++ w.end_copy))
      → available disk.exists p.to_string_lossy (some (out_or_in_dir unlock name unlock.out))
        ≡ ok (some path)
      → Works system path
      → ((context : PasswordPromptContext) → provider context ≡ ok (typed p kdf request.password))
      → (execute_with_cancel_and_password_provider p system (some provider) [] never unlock disk).0
        ≡ (
          ok (record {
            recovered_payload = recovered_file path;
            recovered_bytes = staged_input.plaintext_bytes;
          }),
          persisted path staged_input.plaintext_staging (made (dir_of path) disk),
        )
  unfolding superblock_of payload_kind
  unlock-write_payload_artifacts aead big sum digest kdf sized_key sized_nonces period w bytes
        encoded small writable utf8 room region' measured rebuilt name named unlock disk path system
        provider read resolved works types =
      let body = superblock_of written_request w.stream_len w.region_len in
      let artifact = artifact_of default_notice_text body bytes (length w.notice) in
      let (parses, recovers) =
        recover-artifact_of p draws.nonces sized_nonces draws.polls
          (staged_source p draws answers staged_input request plan) written_request file w aead big
          sum bytes encoded small writable utf8 room region' measured rebuilt
          (λ r. ok draws.file_key) refl in
      rw (← w.counted) (
        execute-done p system (some provider) unlock disk
          ((w.notice ++ w.start_copy) ++ (region' ++ w.end_copy)) artifact name path draws.file_key
          (record { chunk_count = w.stats.chunk_count; plaintext_bytes = w.stats.plaintext_bytes })
          staged_input.plaintext_staging works read parses (rw named refl) resolved recovers
          (found digest kdf sized_key period w.stream_len w.region_len provider types unlock.input
            l.password_protection
            (recovered_key digest kdf sized_key period w.stream_len w.region_len)))
