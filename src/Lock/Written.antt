-- ===== src/Lock/Written.antt =====
-- What a successful payload of a lock did, part by part.
use timelocked.Common.{ℕ, ◌≡◌, Option}
use timelocked.Common.Bytes.{Bytes}
use timelocked.Base.{ok, bind-inv}
use timelocked.Primitives.{Primitives}
use timelocked.Keys.Params.{PasswordProtectionMetadata}
use timelocked.Keys.Wrap.{key_protection_material}
use timelocked.Puzzle.Service.{CreatedTimelockPuzzle, create_puzzle_and_derive_mask}
use timelocked.Stream.Source.{Source}
use timelocked.Artifact.Writer.{predicted_protected_stream_len, write_timelocked_artifact}
use timelocked.Disk.{Answers}
use timelocked.Lock.Shards.{choose_rs_shard_bytes_for_protected_stream_len}
use timelocked.Lock.Staging.{LockRequest, StagedLockInput}
use timelocked.Lock.Payload.{
  Draws, PayloadWritePlan, default_lock_chunk_size_bytes, validate_password, artifact_request,
  write_payload_artifacts_with_key,
}

module _ (p : Primitives) (draws : Draws) (answers : Answers) (staged_input : StagedLockInput)
    (request : LockRequest) (plan : PayloadWritePlan) where
  abbrev pub staged_source : Source
  staged_source = record { bytes = staged_input.plaintext_staging; grants = draws.grants }

  pub record LockedPayload (file : Bytes) : Type 0 where
    pub puzzle : CreatedTimelockPuzzle
    pub wrapped_key : Bytes
    pub password_protection : Option PasswordProtectionMetadata
    pub stream_len : ℕ
    pub created :
        create_puzzle_and_derive_mask p draws.lcm draws.prime_p draws.prime_q draws.base_a
          plan.iterations request.modulus_bits
        ≡ ok puzzle
    pub wrapped :
        key_protection_material p draws.file_key puzzle.solution_mask request.password draws.salt
        ≡ ok (wrapped_key, password_protection)
    pub predicted :
        predicted_protected_stream_len staged_input.plaintext_bytes default_lock_chunk_size_bytes
        ≡ ok stream_len
    pub written :
        write_timelocked_artifact p draws.nonces draws.polls staged_source (
          artifact_request draws staged_input plan puzzle wrapped_key password_protection
            (choose_rs_shard_bytes_for_protected_stream_len stream_len))
        ≡ ok file

  -- A file that `write_payload_artifacts_with_key` returns is what `write_timelocked_artifact` returned
  -- for the staged bytes, with a puzzle that was created for the planned iterations, the file key as
  -- `key_protection_material` wrapped it under the mask of that puzzle, and the shard size that was
  -- chosen for the predicted length of the protected stream.
  write_payload_artifacts-LockedPayload :
      (file : Bytes)
      → write_payload_artifacts_with_key p draws answers staged_input request plan ≡ ok file
      → LockedPayload file
  unfolding write_payload_artifacts_with_key
  write_payload_artifacts-LockedPayload file h =
      bind-inv (validate_password request.password) _ h λ u0 e0 h0.
        bind-inv
          (create_puzzle_and_derive_mask p draws.lcm draws.prime_p draws.prime_q draws.base_a
            plan.iterations request.modulus_bits)
          _ h0
          λ puzzle e1 h1.
            bind-inv
              (key_protection_material p draws.file_key puzzle.solution_mask request.password
                draws.salt)
              _ h1
              λ out e2 h2.
                bind-inv
                  (predicted_protected_stream_len staged_input.plaintext_bytes
                    default_lock_chunk_size_bytes)
                  _ h2
                  λ stream_len e3 h3.
                    bind-inv (answers.new_temp_in staged_input.output_parent) _ h3 λ u4 e4 h4.
                      bind-inv
                        (write_timelocked_artifact p draws.nonces draws.polls staged_source (
                          artifact_request draws staged_input plan puzzle out.0 out.1
                            (choose_rs_shard_bytes_for_protected_stream_len stream_len)))
                        _ h4
                        λ artifact e5 h5. bind-inv answers.flush _ h5 λ u6 e6 h6.
                          let same : artifact ≡ file = cc in
                          record {
                            puzzle = puzzle;
                            wrapped_key = out.0;
                            password_protection = out.1;
                            stream_len = stream_len;
                            created = e1;
                            wrapped = e2;
                            predicted = e3;
                            written = rw (← same) e5;
                          }
