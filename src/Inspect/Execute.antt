-- ===== src/Inspect/Execute.antt =====
-- usecases/inspect.rs, verify.rs and calibrate.rs, and the rate of this machine from
-- domains/timelock/calibration_service.rs. The benchmark's count is given.
use timelocked.Common.{ℕ, Option, none, some, ◌==◌, if◌then◌else◌}
use timelocked.Common.Bytes.{Bytes}
use timelocked.Base.{Result, ok, err, invalid_argument, text, Polls, ◌>>=◌}
use timelocked.Primitives.{Primitives}
use timelocked.Difficulty.Resolve.{
  HardwareProfile, is_current_machine_profile_id, ensure_current_machine_rate, get_profile,
  estimate_duration_on_profile_seconds, estimate_duration_on_current_machine_seconds,
}
use timelocked.Artifact.Reader.{StoredTimelockedArtifact, read_timelocked_artifact_bytes}
use timelocked.Artifact.Recovery.{verify_timelocked_file_structural_and_cancel}
use timelocked.Paths.FilePath.{FilePath}
use timelocked.Disk.{Disk}
use timelocked.Inspect.Header.{TimelockedHeader, from_superblock}

pub record InspectRequest : Type 0 where
  pub input : FilePath
  pub current_machine_iterations_per_second : Option ℕ

pub record InspectResponse : Type 0 where
  pub path : FilePath
  pub payload_len : ℕ
  pub format_version : ℕ
  pub header : TimelockedHeader
  pub estimated_duration_on_profile_seconds : Option ℕ
  pub estimated_duration_on_current_machine_seconds : Option ℕ

pub record VerifyRequest : Type 0 where
  pub input : FilePath

pub record VerifyResponse : Type 0 where
  pub path : FilePath
  pub chunk_count : ℕ
  pub payload_plaintext_bytes : ℕ

module _ (rfc3339 : ℕ → Option Bytes) where
  abbrev pub inspect_response : InspectRequest → StoredTimelockedArtifact → InspectResponse
  inspect_response request parsed = record {
    path = request.input;
    payload_len = parsed.superblock.payload_region_len;
    format_version = parsed.superblock.body_version;
    header = from_superblock rfc3339 parsed.superblock parsed.notice;
    estimated_duration_on_profile_seconds =
        estimate_duration_on_profile_seconds parsed.superblock.iterations
          parsed.superblock.hardware_profile;
    estimated_duration_on_current_machine_seconds =
        estimate_duration_on_current_machine_seconds parsed.superblock.iterations
          request.current_machine_iterations_per_second;
  }

module _ (p : Primitives) where
  unfoldable pub inspect_file : (ℕ → Option Bytes) → Disk → InspectRequest → Result InspectResponse
  inspect_file rfc3339 disk request = do
    file ← disk.contents request.input
    parsed ← read_timelocked_artifact_bytes p file
    ok (inspect_response rfc3339 request parsed)

  unfoldable pub verify_file : Disk → Polls → VerifyRequest → Result VerifyResponse
  verify_file disk polls request = do
    file ← disk.contents request.input
    parsed ← read_timelocked_artifact_bytes p file
    stats ← verify_timelocked_file_structural_and_cancel p file parsed polls
    ok (record {
      path = request.input;
      chunk_count = stats.chunk_count;
      payload_plaintext_bytes = stats.payload_plaintext_bytes;
    })

-- The response of the calibrate use case is the rate.
unfoldable pub calibrate_current_machine_iterations_per_second : ℕ → Result ℕ
calibrate_current_machine_iterations_per_second rate =
    if rate == 0
    then err (invalid_argument (text "machine calibration produced zero iterations"))
    else ok rate

unfoldable pub resolve_profile_or_current_machine :
    Bytes → Option ℕ → Result (Option HardwareProfile)
resolve_profile_or_current_machine profile_id current_rate =
    if is_current_machine_profile_id profile_id
    then (ensure_current_machine_rate current_rate >>= λ rate. ok none)
    else (get_profile profile_id >>= λ profile. ok (some profile))
