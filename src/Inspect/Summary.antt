-- ===== src/Inspect/Summary.antt =====
-- What the inspect view and the structural verification say of a file that is unlocked.
use timelocked.Common.{ℕ, ◌≡◌, refl, Option}
use timelocked.Common.Bytes.{Bytes}
use timelocked.Base.{ok, Polls, bind-inv}
use timelocked.Primitives.{Primitives}
use timelocked.Difficulty.Resolve.{
  estimate_duration_on_profile_seconds, estimate_duration_on_current_machine_seconds,
}
use timelocked.Artifact.Reader.{read_timelocked_artifact_bytes}
use timelocked.Disk.{Disk}
use timelocked.Inspect.Header.{from_superblock}
use timelocked.Inspect.Execute.{
  InspectResponse, inspect_file, VerifyRequest, VerifyResponse, verify_file,
}

-- A file that passes the structural verification can be inspected.
inspect-verify :
    (p : Primitives) (rfc3339 : ℕ → Option Bytes) (disk : Disk) (polls : Polls)
    (request : VerifyRequest) (response : VerifyResponse) (rate : Option ℕ)
    → verify_file p disk polls request ≡ ok response
    → (inspected : InspectResponse) × (inspect_file p rfc3339 disk
          (record { input = request.input; current_machine_iterations_per_second = rate })
        ≡ ok inspected)
unfolding inspect_file verify_file
inspect-verify p rfc3339 disk polls request response rate h =
    bind-inv (disk.contents request.input) _ h λ file e0 h0.
      bind-inv (read_timelocked_artifact_bytes p file) _ h0 λ parsed e1 h1. (
        record {
          path = request.input;
          payload_len = parsed.superblock.payload_region_len;
          format_version = parsed.superblock.body_version;
          header = from_superblock rfc3339 parsed.superblock parsed.notice;
          estimated_duration_on_profile_seconds =
              estimate_duration_on_profile_seconds parsed.superblock.iterations
                parsed.superblock.hardware_profile;
          estimated_duration_on_current_machine_seconds =
              estimate_duration_on_current_machine_seconds parsed.superblock.iterations rate;
        },
        rw (e0, e1) refl,
      )
