-- ===== src/Examples/Durations.antt =====
-- Two hours on a desktop.
use timelocked.Common.{ℕ, ◌^◌, ◌<◌, ◌≡◌, refl, none, some}
use timelocked.Common.Bytes.{ascii, bytes_eq}
use timelocked.Base.{ok}
use timelocked.Difficulty.Resolve.{
  ResolvedLockDifficulty, parse_duration_spec, parse_u64, seconds_per_unit, get_profile,
  is_current_machine_profile_id, estimate_duration_on_profile_choice_seconds,
  estimate_iterations_for_rate, resolve_iterations_per_second, resolve_target,
  resolve_lock_difficulty,
}
use timelocked.Difficulty.Estimate.{estimate-resolve_lock_difficulty}

abbrev resolved : ResolvedLockDifficulty
resolved = record {
  iterations = 2_880_000_000;
  hardware_profile_id = ascii "desktop-2026";
  target_seconds = some 7_200;
}

resolves :
    resolve_lock_difficulty none (some (ascii "2h")) (some (ascii "desktop-2026")) none
    ≡ ok resolved
unfolding resolve_lock_difficulty resolve_target parse_duration_spec parse_u64 seconds_per_unit
    get_profile is_current_machine_profile_id resolve_iterations_per_second
    estimate_iterations_for_rate bytes_eq
resolves = refl

estimate-resolve_lock_difficulty_example :
    (secs : ℕ) × (parse_duration_spec (ascii "2h") ≡ ok secs)
    × (some 7_200 ≡ some secs)
    × (0 < 2_880_000_000)
    × (2_880_000_000 < 2 ^ 64)
    × (estimate_duration_on_profile_choice_seconds 2_880_000_000 (ascii "desktop-2026") none
        ≡ some secs)
estimate-resolve_lock_difficulty_example =
    estimate-resolve_lock_difficulty (ascii "2h") (some (ascii "desktop-2026")) none resolved
      resolves
