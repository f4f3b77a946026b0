-- ===== src/Difficulty/Estimate.antt =====
-- The time estimated for the iterations that a target was resolved to.
use timelocked.Common.{
  ℕ, ◌*◌, ◌^◌, ◌<◌, ◌≡◌, arith, max, Bool, true, false, Option, none, some, ◌==◌, if◌then◌else◌,
}
use timelocked.Common.Bytes.{Bytes, bytes_eq}
use timelocked.Base.{Result, ok, err, bind-inv, ◌>>=◌}
use timelocked.Difficulty.Resolve.{
  ResolvedLockDifficulty, get_profile, parse_duration_spec, estimate_iterations_for_rate,
  estimate_duration_seconds_for_rate, is_current_machine_profile_id, current_machine_profile_id,
  ensure_current_machine_rate, resolve_iterations_per_second, estimate_duration_on_profile_seconds,
  estimate_duration_on_current_machine_seconds, estimate_duration_on_profile_choice_seconds,
  on_profile, profile_or_default, resolve_target, resolve_lock_difficulty, HardwareProfile,
}
use native.Mathlib.Nat.{mul-div_cancel}

rate_positive : (rate : ℕ) → 0 < rate → (rate == 0) ≡ false
rate_positive rate h = ground arith

estimate_lem :
    (secs rate iterations : ℕ)
    → estimate_iterations_for_rate secs rate ≡ ok iterations
    → (iterations ≡ secs * rate) × (0 < rate) × (0 < iterations) × (iterations < 2 ^ 64)
unfolding estimate_iterations_for_rate
estimate_lem secs rate iterations h =
    let same : iterations ≡ secs * rate = ground arith in
    let some : 0 < secs * rate = ground arith in
    let fits : secs * rate < 2 ^ 64 = ground arith in
    let rated : 0 < rate = ground arith in (same, rated, rw same some, rw same fits)

estimate_current :
    (current_rate : Option ℕ) (rate secs : ℕ)
    → 0 < rate
    → ensure_current_machine_rate current_rate ≡ ok rate
    → estimate_duration_on_current_machine_seconds (secs * rate) current_rate ≡ some secs
unfolding ensure_current_machine_rate estimate_duration_seconds_for_rate
estimate_current none rate secs pos h = cc
estimate_current (some r) rate secs pos h =
    let same : r ≡ rate = ground arith in rw (same, rate_positive rate pos, mul-div_cancel secs pos)

estimate_profile :
    (profile : Result HardwareProfile) (rate secs : ℕ)
    → 0 < rate
    → (profile >>= λ profile. ok profile.iterations_per_second) ≡ ok rate
    → on_profile (secs * rate) profile ≡ some secs
estimate_profile (ok profile) rate secs pos h =
    let same : profile.iterations_per_second ≡ rate = cc in
    let at_least : max profile.iterations_per_second 1 ≡ rate = omega arith in
    rw (at_least, mul-div_cancel secs pos)
estimate_profile (err e) rate secs pos h = cc

-- What a rate was resolved to is what the estimate divides by.
estimate_rate :
    (profile_id : Bytes) (current_rate : Option ℕ) (rate secs : ℕ)
    → 0 < rate
    → resolve_iterations_per_second profile_id current_rate ≡ ok rate
    → estimate_duration_on_profile_choice_seconds (secs * rate) profile_id current_rate ≡ some secs
unfolding resolve_iterations_per_second estimate_duration_on_profile_choice_seconds
    is_current_machine_profile_id estimate_duration_on_profile_seconds
estimate_rate profile_id current_rate rate secs pos h =
    step (bytes_eq profile_id current_machine_profile_id) h
  where
    step :
        (b : Bool)
        → (if b
            then ensure_current_machine_rate current_rate
            else get_profile profile_id >>= λ profile. ok profile.iterations_per_second)
          ≡ ok rate
        → (if b
            then estimate_duration_on_current_machine_seconds (secs * rate) current_rate
            else on_profile (secs * rate) (get_profile profile_id))
          ≡ some secs
    step true e = estimate_current current_rate rate secs pos e
    step false e = estimate_profile (get_profile profile_id) rate secs pos e

-- The iterations that a target duration was resolved to are positive and fit in 64 bits, the
-- resolved target is the parsed duration, and the time that is estimated for them, on the same
-- profile and with the same calibration, is that duration exactly.
pub estimate-resolve_lock_difficulty :
    (target : Bytes) (profile_id : Option Bytes) (current_rate : Option ℕ)
    (r : ResolvedLockDifficulty)
    → resolve_lock_difficulty none (some target) profile_id current_rate ≡ ok r
    → (secs : ℕ) × (parse_duration_spec target ≡ ok secs)
      × (r.target_seconds ≡ some secs)
      × (0 < r.iterations)
      × (r.iterations < 2 ^ 64)
      × (estimate_duration_on_profile_choice_seconds r.iterations r.hardware_profile_id current_rate
          ≡ some secs)
unfolding resolve_lock_difficulty resolve_target
estimate-resolve_lock_difficulty target profile_id current_rate r h =
    bind-inv (parse_duration_spec target) _ h λ secs e1 h1.
      bind-inv (resolve_iterations_per_second (profile_or_default profile_id) current_rate) _ h1
        λ rate e2 h2. bind-inv (estimate_iterations_for_rate secs rate) _ h2 λ iterations e3 h3.
          let (same, rated, some_iterations, fits) = estimate_lem secs rate iterations e3 in
          let count : r.iterations ≡ secs * rate = cc in
          let kept : r.hardware_profile_id ≡ profile_or_default profile_id = cc in
          (
            secs,
            e1,
            cc,
            omega arith,
            omega arith,
            rw (count, kept)
                (estimate_rate (profile_or_default profile_id) current_rate rate secs rated e2),
          )
