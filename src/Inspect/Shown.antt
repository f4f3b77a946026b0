-- ===== src/Inspect/Shown.antt =====
-- What the inspect view shows of a file that was written, and of one that a lock wrote.
use timelocked.Common.{
  ℕ, ◌+◌, ◌%◌, ◌^◌, ◌≤◌, ◌<◌, ◌≡◌, refl, sym, ◌∙◌, true, false, Option, none, some, ◌++◌, length,
  append_assoc, arith,
}
use timelocked.Common.Bytes.{Bytes}
use timelocked.Base.{ok, Polls, bind-inv}
use timelocked.Primitives.{Primitives}
use timelocked.Primitives.Laws.{IsBigEndian, IsChecksum}
use timelocked.Keys.Params.{PasswordProtectionMetadata, default_with_salt}
use timelocked.Keys.Wrap.{key_protection_material, wrap_file_key_for_password_protected_lock}
use timelocked.Puzzle.Service.{CreatedTimelockPuzzle, create_puzzle_and_derive_mask}
use timelocked.Stream.Source.{Source}
use timelocked.Stream.Sealed.{encrypt_protected_stream-Encrypted}
use timelocked.Superblock.Body.{max_superblock_body_len_bytes}
use timelocked.Superblock.Encode.{encode_superblock_body}
use timelocked.Superblock.RoundTrip.{IsBody}
use timelocked.Artifact.Notice.{default_notice_text}
use timelocked.Artifact.Writer.{LockArtifactRequest, superblock_of, notice_or_default}
use timelocked.Artifact.Locate.{artifact_of}
use timelocked.Artifact.RoundTrip.{read_timelocked_artifact-whole}
use timelocked.Artifact.Written.{Written}
use timelocked.Disk.{Disk, Answers}
use timelocked.Lock.Staging.{LockRequest, StagedLockInput}
use timelocked.Lock.Payload.{Draws, PayloadWritePlan}
use timelocked.Lock.Written.{staged_source, LockedPayload}
use timelocked.Lock.RoundTrip.{written_request}
use timelocked.Inspect.Header.{format_created_at, from_superblock, password_protection_summary}
use timelocked.Inspect.Execute.{InspectRequest, InspectResponse, inspect_response, inspect_file}

-- The first format has no password, and the second one shows its parameters.
abbrev pub IsProtectionShown : Option PasswordProtectionMetadata → InspectResponse → Type 0
IsProtectionShown none response =
    (response.format_version ≡ 1) × (response.header.password_protection.password_protected ≡ false)
IsProtectionShown (some metadata) response =
    (response.format_version ≡ 2)
    × (response.header.password_protection.password_protected ≡ true)
    × (response.header.password_protection.password_kdf_memory_kib
        ≡ some metadata.params.memory_kib)
    × (response.header.password_protection.password_salt_len ≡ some (length metadata.params.salt))

-- A response shows the fields of a request, and the size of the plaintext.
pub record IsShown (rfc3339 : ℕ → Option Bytes) (request : LockArtifactRequest) (size : ℕ)
    (response : InspectResponse) : Type 0 where
  pub about : response.header.about ≡ notice_or_default request.notice
  pub filename : response.header.original_filename ≡ request.original_filename
  pub created :
      response.header.created_at ≡ format_created_at rfc3339 request.created_at_unix_seconds
  pub iterations : response.header.timelock_params.iterations ≡ request.iterations
  pub modulus_bits : response.header.timelock_params.modulus_bits ≡ request.modulus_bits
  pub profile : response.header.timelock_params.hardware_profile ≡ request.hardware_profile
  pub target : response.header.timelock_params.target_seconds ≡ request.target_seconds
  pub chunk_size : response.header.chunking_params.chunk_size_bytes ≡ request.aead_chunk_size_bytes
  pub plaintext : response.header.payload_plaintext_bytes ≡ size
  pub protection : IsProtectionShown request.password_protection response

module _ (p : Primitives) (rfc3339 : ℕ → Option Bytes) (nonces : ℕ → Bytes) (polls : Polls)
    (source : Source) (request : LockArtifactRequest) (file : Bytes)
    (w : Written p nonces polls source request file) where
  shows :
      (bytes : Bytes) (inspect : InspectRequest) (protection : Option PasswordProtectionMetadata)
      → request.password_protection ≡ protection
      → IsProtectionShown protection (
          inspect_response rfc3339 inspect (
            artifact_of
              (notice_or_default request.notice)
              (superblock_of request w.stream_len w.region_len)
              bytes
              (length w.notice)))
  unfolding superblock_of from_superblock password_protection_summary
  shows bytes inspect none e = rw e (refl, refl)
  shows bytes inspect (some metadata) e = rw e (refl, refl, refl, refl)

  pub inspect-write_timelocked_artifact :
      IsBigEndian p
      → IsChecksum p
      → (bytes : Bytes)
      → encode_superblock_body p (superblock_of request w.stream_len w.region_len) ≡ ok bytes
      → length bytes ≤ max_superblock_body_len_bytes
      → IsBody p (superblock_of request w.stream_len w.region_len)
      → p.is_utf8 (notice_or_default request.notice) ≡ true
      → length w.notice + (12 + length bytes) + w.region_len + (12 + length bytes) < 2 ^ 64
      → (disk : Disk) (inspect : InspectRequest) → disk.contents inspect.input ≡ ok file
      → (response : InspectResponse) × (inspect_file p rfc3339 disk inspect ≡ ok response)
        × IsShown rfc3339 request (length source.bytes) response
  unfolding superblock_of inspect_file from_superblock
  inspect-write_timelocked_artifact big sum bytes encoded small writable utf8 room disk inspect
        read =
      let body = superblock_of request w.stream_len w.region_len in
      let artifact = artifact_of (notice_or_default request.notice) body bytes (length w.notice) in
      let (parsed, at_region) =
        read_timelocked_artifact-whole p big sum body bytes w.region writable encoded small
          w.region_measured (notice_or_default request.notice) w.notice w.start_copy w.end_copy
          w.noticed utf8 w.started w.ended room in
      let whole : file ≡ (w.notice ++ w.start_copy) ++ (w.region ++ w.end_copy) =
        w.whole ∙ sym (append_assoc w.notice w.start_copy (w.region ++ w.end_copy)) in
      let wrote =
        encrypt_protected_stream-Encrypted p request.key_bytes w.digest nonces
          request.aead_chunk_size_bytes polls source w.stream w.stats w.encrypted in
      (
        inspect_response rfc3339 inspect artifact,
        rw (read, whole, parsed) refl,
        record {
          about = refl;
          filename = refl;
          created = refl;
          iterations = refl;
          modulus_bits = refl;
          profile = refl;
          target = refl;
          chunk_size = refl;
          plaintext = sym w.counted ∙ wrote.measured;
          protection = shows bytes inspect request.password_protection refl;
        },
      )

-- What a response shows of a lock.
abbrev pub IsPasswordShown : Option Bytes → InspectResponse → Type 0
IsPasswordShown none response = response.header.password_protection.password_protected ≡ false
IsPasswordShown (some passphrase) response =
    response.header.password_protection.password_protected ≡ true

pub record IsLockShown (rfc3339 : ℕ → Option Bytes) (draws : Draws) (staged_input : StagedLockInput)
    (request : LockRequest) (plan : PayloadWritePlan) (response : InspectResponse) : Type 0 where
  pub about : response.header.about ≡ default_notice_text
  pub filename : response.header.original_filename ≡ staged_input.original_filename
  pub created : response.header.created_at ≡ format_created_at rfc3339 draws.current_unix_seconds
  pub iterations : response.header.timelock_params.iterations ≡ plan.iterations
  pub modulus_bits : response.header.timelock_params.modulus_bits ≡ request.modulus_bits % 2 ^ 16
  pub profile : response.header.timelock_params.hardware_profile ≡ plan.hardware_profile
  pub target : response.header.timelock_params.target_seconds ≡ plan.target_seconds
  pub chunk_size : response.header.chunking_params.chunk_size_bytes ≡ 2 ^ 20
  pub plaintext : response.header.payload_plaintext_bytes ≡ length staged_input.plaintext_staging
  pub password : IsPasswordShown request.password response

created-modulus_bits :
    (p : Primitives) (lcm : ℕ → ℕ → ℕ) (prime_p prime_q a iterations modulus_bits : ℕ)
    (puzzle : CreatedTimelockPuzzle)
    → create_puzzle_and_derive_mask p lcm prime_p prime_q a iterations modulus_bits ≡ ok puzzle
    → puzzle.modulus_bits ≡ modulus_bits % 2 ^ 16
unfolding create_puzzle_and_derive_mask
created-modulus_bits p lcm prime_p prime_q a iterations modulus_bits puzzle h = ground arith

-- A password protects the key exactly when there is one.
password-shown :
    (p : Primitives) (key mask salt wrapped : Bytes) (password : Option Bytes)
    (protection : Option PasswordProtectionMetadata) (response : InspectResponse)
    → key_protection_material p key mask password salt ≡ ok (wrapped, protection)
    → IsProtectionShown protection response
    → IsPasswordShown password response
unfolding key_protection_material
password-shown p key mask salt wrapped none none response h shown = shown.1
password-shown p key mask salt wrapped none (some metadata) response h shown = absurd (cc)
password-shown p key mask salt wrapped (some passphrase) (some metadata) response h shown = shown.1
password-shown p key mask salt wrapped (some passphrase) none response h shown =
    bind-inv (default_with_salt salt) _ h λ params e0 h0.
      bind-inv (wrap_file_key_for_password_protected_lock p key mask passphrase params) _ h0
        λ out e1 h1. absurd (cc)

module _ (p : Primitives) (rfc3339 : ℕ → Option Bytes) (draws : Draws) (answers : Answers)
    (staged_input : StagedLockInput) (request : LockRequest) (plan : PayloadWritePlan)
    (file : Bytes) (l : LockedPayload p draws answers staged_input request plan file) where
  -- What a lock made of a staged file (`LockedPayload`, `Written`) is shown by the inspect view with
  -- the default notice, the name of the staged file, the time of the lock, the planned iterations,
  -- profile and target, the lower 16 bits of the modulus bits asked for, chunks of 1 MiB, the number
  -- of staged bytes, and as protected exactly where the lock had a password. The superblock is
  -- encodable (ranges, names, at most 1 MiB), the default notice is UTF-8, the file is below
  -- 2 ^ 64 bytes, and the libraries keep their promises.
  pub inspect-write_payload_artifacts :
      IsBigEndian p
      → IsChecksum p
      → (w : Written p draws.nonces draws.polls
          (staged_source p draws answers staged_input request plan)
          (written_request p draws answers staged_input request plan file l)
          file)
      → (bytes : Bytes)
      → encode_superblock_body p (
          superblock_of
            (written_request p draws answers staged_input request plan file l)
            w.stream_len
            w.region_len)
        ≡ ok bytes
      → length bytes ≤ max_superblock_body_len_bytes
      → IsBody p (
          superblock_of
            (written_request p draws answers staged_input request plan file l)
            w.stream_len
            w.region_len)
      → p.is_utf8 default_notice_text ≡ true
      → length w.notice + (12 + length bytes) + w.region_len + (12 + length bytes) < 2 ^ 64
      → (disk : Disk) (inspect : InspectRequest) → disk.contents inspect.input ≡ ok file
      → (response : InspectResponse) × (inspect_file p rfc3339 disk inspect ≡ ok response)
        × IsLockShown rfc3339 draws staged_input request plan response
  inspect-write_payload_artifacts big sum w bytes encoded small writable utf8 room disk inspect
        read =
      let (response, shows_it, shown) =
        inspect-write_timelocked_artifact p rfc3339 draws.nonces draws.polls
          (staged_source p draws answers staged_input request plan)
          (written_request p draws answers staged_input request plan file l) file w big sum bytes
          encoded small writable utf8 room disk inspect read in
      (
        response,
        shows_it,
        record {
          about = shown.about;
          filename = shown.filename;
          created = shown.created;
          iterations = shown.iterations;
          modulus_bits =
              shown.modulus_bits
              ∙ created-modulus_bits p draws.lcm draws.prime_p draws.prime_q draws.base_a
                  plan.iterations request.modulus_bits l.puzzle l.created;
          profile = shown.profile;
          target = shown.target;
          chunk_size = shown.chunk_size;
          plaintext = shown.plaintext;
          password =
              password-shown p draws.file_key l.puzzle.solution_mask draws.salt l.wrapped_key
                request.password l.password_protection response l.wrapped shown.protection;
        },
      )
