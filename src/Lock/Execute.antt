-- ===== src/Lock/Execute.antt =====
-- usecases/lock/mod.rs, calibration.rs, persistence.rs and output_verification.rs: a whole lock.
use timelocked.Common.{ℕ, Bool, true, false, not, Option, none, some, if◌then◌else◌}
use timelocked.Common.Bytes.{Bytes}
use timelocked.Base.{Result, ok, err, Polls, ensure_not_cancelled, ◌>>=◌, ◌>>◌}
use timelocked.Primitives.{Primitives}
use timelocked.Difficulty.Resolve.{
  ResolvedLockDifficulty, is_current_machine_profile_id, resolve_lock_difficulty,
}
use timelocked.Artifact.Reader.{read_timelocked_artifact_bytes}
use timelocked.Artifact.Recovery.{verify_timelocked_file_structural_and_cancel}
use timelocked.Paths.FilePath.{FilePath}
use timelocked.Disk.{Disk, Answers, persisted, if_ok}
use timelocked.Lock.Staging.{LockRequest, StagedLockInput, resolve_and_stage_input}
use timelocked.Lock.Payload.{Draws, write_payload_artifacts}

pub record LockResponse : Type 0 where
  pub output_path : FilePath
  pub iterations : ℕ
  pub hardware_profile : Bytes
  pub payload_bytes : ℕ

-- What the token answers: at the start, before and behind the staging, before the payload, and
-- while the output is verified.
pub record LockPolls : Type 0 where
  pub start : Polls
  pub staging : Polls
  pub staged : Polls
  pub payload : Polls
  pub verification : Polls

-- The benchmark of this machine is given.
abbrev pub rate_or_calibrate : Result ℕ → Option ℕ → Result (Option ℕ)
rate_or_calibrate calibrated (some rate) = ok (some rate)
rate_or_calibrate calibrated none = do rate ← calibrated; ok (some rate)

abbrev pub rate_for_profile : Result ℕ → Option ℕ → Option Bytes → Result (Option ℕ)
rate_for_profile calibrated current_rate none = ok none
rate_for_profile calibrated current_rate (some profile_id) =
    if not (is_current_machine_profile_id profile_id)
    then ok none
    else rate_or_calibrate calibrated current_rate

abbrev pub rate_unless : Result ℕ → Option ℕ → Option ℕ → Option Bytes → Result (Option ℕ)
rate_unless calibrated (some iterations) current_rate hardware_profile = ok none
rate_unless calibrated none current_rate hardware_profile =
    rate_for_profile calibrated current_rate hardware_profile

unfoldable pub resolve_current_machine_iterations_per_second :
    Result ℕ → LockRequest → Result (Option ℕ)
resolve_current_machine_iterations_per_second calibrated request =
    rate_unless calibrated request.iterations request.current_machine_iterations_per_second
      request.hardware_profile

-- The disk once the temporary file is persisted.
abbrev pub persist_with : Result (Unit {0}) → FilePath → Bytes → Disk → Result (Unit {0}) × Disk
persist_with (err e) output_path artifact disk = (err e, disk)
persist_with (ok done) output_path artifact disk = (ok tt, persisted output_path artifact disk)

unfoldable pub persist_timelocked_container :
    Answers → FilePath → Bytes → Disk → Result (Unit {0}) × Disk
persist_timelocked_container answers output_path artifact disk =
    persist_with (answers.persist output_path) output_path artifact disk

module _ (p : Primitives) where
  unfoldable pub verify_output_if_requested : Polls → Bool → FilePath → Disk → Result (Unit {0})
  verify_output_if_requested polls false output_path disk = ok tt
  verify_output_if_requested polls true output_path disk = do
    file ← disk.contents output_path
    parsed ← read_timelocked_artifact_bytes p file
    stats ← verify_timelocked_file_structural_and_cancel p file parsed polls
    ok tt

  -- What is ready to be persisted: the staged input, the difficulty and the artifact.
  abbrev pub Prepared : Type 0
  Prepared = StagedLockInput × ResolvedLockDifficulty × Bytes

  module _ (draws : Draws) (standard_input : Result Bytes) (calibrated : Result ℕ)
      (staging_answers artifact_answers : Answers) (polls : LockPolls) where
    -- Behind the staging.
    abbrev pub prepare_payload : LockRequest → StagedLockInput → Result Prepared
    prepare_payload request staged_input = do
      current_machine_iterations_per_second ←
          resolve_current_machine_iterations_per_second calibrated request
      difficulty ←
          resolve_lock_difficulty request.iterations request.target request.hardware_profile
            current_machine_iterations_per_second
      artifact ←
          write_payload_artifacts p draws artifact_answers polls.payload staged_input request
            (record {
              iterations = difficulty.iterations;
              hardware_profile = difficulty.hardware_profile_id;
              target_seconds = difficulty.target_seconds;
            })
      ok (staged_input, difficulty, artifact)

    abbrev pub prepare_staged : LockRequest → Result StagedLockInput × Disk → Result Prepared × Disk
    prepare_staged request (err e, disk) = (err e, disk)
    prepare_staged request (ok staged_input, disk) = (prepare_payload request staged_input, disk)

    abbrev pub prepare_lock : LockRequest → Disk → Result Prepared × Disk
    prepare_lock request disk = if_ok (ensure_not_cancelled polls.start) disk (
        prepare_staged request (
          resolve_and_stage_input p standard_input staging_answers polls.staging polls.staged disk
            request.input request.output))

    abbrev pub lock_response : StagedLockInput → ResolvedLockDifficulty → LockResponse
    lock_response staged_input difficulty = record {
      output_path = staged_input.output_path;
      iterations = difficulty.iterations;
      hardware_profile = difficulty.hardware_profile_id;
      payload_bytes = staged_input.plaintext_bytes;
    }

    -- From the call that persists on.
    abbrev pub finish_lock :
        LockRequest → Prepared → Result (Unit {0}) × Disk → Result LockResponse × Disk
    finish_lock request prepared (err e, disk) = (err e, disk)
    finish_lock request (staged_input, difficulty, artifact) (ok done, disk) = (
      (verify_output_if_requested polls.verification request.verify staged_input.output_path disk
          >> ok (lock_response staged_input difficulty)),
      disk,
    )

    abbrev pub lock_prepared : LockRequest → Result Prepared × Disk → Result LockResponse × Disk
    lock_prepared request (err e, disk) = (err e, disk)
    lock_prepared request (ok prepared, disk) =
        finish_lock request prepared
          (persist_timelocked_container artifact_answers prepared.0.output_path prepared.2 disk)

    unfoldable pub execute_with_cancel : LockRequest → Disk → Result LockResponse × Disk
    execute_with_cancel request disk = lock_prepared request (prepare_lock request disk)
