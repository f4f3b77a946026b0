-- ===== src/Lock/Payload.antt =====
-- usecases/lock/payload_writer.rs: the puzzle, the protected key and the artifact of a lock. What is
-- drawn at random, the clock and the reads of the staged file are given. Progress is left out.
-- `key_protection_material` is in Keys.
use timelocked.Common.{ℕ, Option, none, some, List}
use timelocked.Common.Bytes.{Bytes}
use timelocked.Base.{Result, ok, Polls, ensure_not_cancelled, ◌>>=◌, ◌>>◌}
use timelocked.Primitives.{Primitives}
use timelocked.Keys.Params.{PasswordProtectionMetadata}
use timelocked.Keys.Wrap.{validate_lock_passphrase, key_protection_material}
use timelocked.Puzzle.Service.{CreatedTimelockPuzzle, create_puzzle_and_derive_mask}
use timelocked.Stream.Source.{Grant}
use timelocked.Artifact.Writer.{
  LockArtifactRequest, predicted_protected_stream_len, write_timelocked_artifact,
}
use timelocked.Disk.{Answers}
use timelocked.Lock.Shards.{
  default_rs_data_shards, default_rs_parity_shards, choose_rs_shard_bytes_for_protected_stream_len,
}
use timelocked.Lock.Staging.{LockRequest, StagedLockInput}

abbrev pub default_lock_chunk_size_bytes : ℕ
default_lock_chunk_size_bytes = 1_048_576

pub record PayloadWritePlan : Type 0 where
  pub iterations : ℕ
  pub hardware_profile : Bytes
  pub target_seconds : Option ℕ

-- What one lock draws: the file key and the salt (`OsRng`), the primes, the base and the least
-- common multiple of the puzzle, the nonces, the time, the reads of the staged file, and the
-- token's answers while the payload is written.
pub record Draws : Type 0 where
  pub file_key : Bytes
  pub salt : Bytes
  pub lcm : ℕ → ℕ → ℕ
  pub prime_p : ℕ
  pub prime_q : ℕ
  pub base_a : ℕ
  pub nonces : ℕ → Bytes
  pub current_unix_seconds : ℕ
  pub grants : List Grant
  pub polls : Polls

abbrev pub validate_password : Option Bytes → Result (Unit {0})
validate_password none = ok tt
validate_password (some passphrase) = validate_lock_passphrase passphrase

-- The request of the artifact writer.
abbrev pub artifact_request :
    Draws
    → StagedLockInput
    → PayloadWritePlan
    → CreatedTimelockPuzzle
    → Bytes
    → Option PasswordProtectionMetadata
    → ℕ
    → LockArtifactRequest
artifact_request draws staged_input plan puzzle wrapped_key password_protection rs_shard_bytes =
    record {
      notice = none;
      original_filename = staged_input.original_filename;
      iterations = plan.iterations;
      modulus_bits = puzzle.modulus_bits;
      hardware_profile = plan.hardware_profile;
      target_seconds = plan.target_seconds;
      created_at_unix_seconds = draws.current_unix_seconds;
      payload_plaintext_bytes = staged_input.plaintext_bytes;
      aead_chunk_size_bytes = default_lock_chunk_size_bytes;
      payload_region_params = record {
        rs_data_shards = default_rs_data_shards;
        rs_parity_shards = default_rs_parity_shards;
        rs_shard_bytes = rs_shard_bytes;
      };
      key_bytes = draws.file_key;
      timelock_material = record {
        modulus_n = puzzle.modulus_n;
        base_a = puzzle.base_a;
        wrapped_key = wrapped_key;
      };
      password_protection = password_protection;
    }

module _ (p : Primitives) (draws : Draws) (answers : Answers) where
  -- The bytes of the artifact's temporary file.
  unfoldable pub write_payload_artifacts_with_key :
      StagedLockInput → LockRequest → PayloadWritePlan → Result Bytes
  write_payload_artifacts_with_key staged_input request plan = do
    validate_password request.password
    puzzle ←
        create_puzzle_and_derive_mask p draws.lcm draws.prime_p draws.prime_q draws.base_a
          plan.iterations request.modulus_bits
    (wrapped_key, password_protection) ←
        key_protection_material p draws.file_key puzzle.solution_mask request.password draws.salt
    protected_stream_len ←
        predicted_protected_stream_len staged_input.plaintext_bytes default_lock_chunk_size_bytes
    let rs_shard_bytes = choose_rs_shard_bytes_for_protected_stream_len protected_stream_len
    answers.new_temp_in staged_input.output_parent
    artifact ←
        write_timelocked_artifact p draws.nonces draws.polls
          (record { bytes = staged_input.plaintext_staging; grants = draws.grants })
          (artifact_request draws staged_input plan puzzle wrapped_key password_protection
            rs_shard_bytes)
    answers.flush
    ok artifact

  unfoldable pub write_payload_artifacts :
      Polls → StagedLockInput → LockRequest → PayloadWritePlan → Result Bytes
  write_payload_artifacts polls staged_input request plan =
      ensure_not_cancelled polls >> write_payload_artifacts_with_key staged_input request plan
