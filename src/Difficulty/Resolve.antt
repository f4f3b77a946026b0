-- ===== src/Difficulty/Resolve.antt =====
-- From a duration or a number of iterations, and a hardware profile, to the iterations of a puzzle.
-- A `&str` is its bytes. `Duration` is used for its whole seconds only. The benchmark behind a
-- calibration is left out: the current machine's rate is given.
use timelocked.Common.{
  ℕ, ◌+◌, ◌-◌, ◌*◌, ◌/◌, ◌^◌, max, Bool, not, ◌&&◌, Option, none, some, List, [], ◌∷◌, ltb, leb,
  ◌==◌, if◌then◌else◌, length, take, drop, is_empty,
}
use timelocked.Common.Bytes.{Bytes, ascii, bytes_eq}
use timelocked.Base.{Error, Result, ok, err, invalid_argument, text, fmt, ◌>>=◌}

pub record HardwareProfile : Type 0 where
  pub id : Bytes
  pub label : Bytes
  pub iterations_per_second : ℕ

abbrev pub profiles : List HardwareProfile
profiles =
    record {
      id = ascii "laptop-2024";
      label = ascii "Laptop CPU (2024)";
      iterations_per_second = 250_000;
    }
    ∷ record {
      id = ascii "desktop-2026";
      label = ascii "Desktop CPU (2026)";
      iterations_per_second = 400_000;
    }
    ∷ record {
      id = ascii "high-end-2026";
      label = ascii "High-end CPU (2026)";
      iterations_per_second = 500_000;
    }
    ∷ []

abbrev pub unknown_profile : Bytes → Error
unknown_profile profile_id = invalid_argument (
    fmt
      "unknown hardware profile '{profile_id}', expected one of: laptop-2024, desktop-2026, high-end-2026"
      profile_id)

abbrev pub find_profile : Bytes → List HardwareProfile → Result HardwareProfile
find_profile profile_id [] = err (unknown_profile profile_id)
find_profile profile_id (profile ∷ rest) =
    let more = find_profile profile_id rest in
    if bytes_eq profile.id profile_id then ok profile else more

unfoldable pub get_profile : Bytes → Result HardwareProfile
get_profile profile_id = find_profile profile_id profiles

-- `str::parse::<u64>`: an optional plus sign, then one digit or more, of a value below 2 ^ 64.
abbrev pub digits : ℕ → Bytes → Option ℕ
digits value [] = if ltb value (2 ^ 64) then some value else none
digits value (b ∷ rest) =
    let more = digits (value * 10 + (b - 48)) rest in if leb 48 b && leb b 57 then more else none

abbrev pub parse_digits : Bytes → Option ℕ
parse_digits s = if is_empty s then none else digits 0 s

unfoldable pub parse_u64 : Bytes → Option ℕ
parse_u64 [] = none
parse_u64 (b ∷ rest) =
    let signed = parse_digits rest in
    let plain = parse_digits (b ∷ rest) in if b == 43 then signed else plain

abbrev pub or_invalid : Bytes → Option ℕ → Result ℕ
or_invalid spec (some amount) = ok amount
or_invalid spec none =
    err (invalid_argument (fmt "invalid duration '{spec}', numeric value is not valid" spec))

unfoldable pub seconds_per_unit : Bytes → Result ℕ
seconds_per_unit unit =
    if bytes_eq unit (ascii "s")
    then ok 1
    else if bytes_eq unit (ascii "m")
    then ok 60
    else if bytes_eq unit (ascii "h")
    then ok 3_600
    else if bytes_eq unit (ascii "d")
    then ok 86_400
    else if bytes_eq unit (ascii "w")
    then ok 604_800
    else err (
        invalid_argument (fmt "invalid duration unit '{unit}', expected one of s, m, h, d, w" unit))

-- In seconds. The split panics inside a character of several bytes; here it cuts there.
unfoldable pub parse_duration_spec : Bytes → Result ℕ
parse_duration_spec spec =
    if ltb (length spec) 2
    then err
        (invalid_argument (fmt "invalid duration '{spec}', expected formats like 6h, 3d, 2w" spec))
    else do
      amount ← or_invalid spec (parse_u64 (take (length spec - 1) spec))
      unit_seconds ← seconds_per_unit (drop (length spec - 1) spec)
      (if ltb (amount * unit_seconds) (2 ^ 64)
          then ok (amount * unit_seconds)
          else err (invalid_argument (text "duration is too large")))

-- The product of two u64 numbers fits in the u128 of the source.
unfoldable pub estimate_iterations_for_rate : ℕ → ℕ → Result ℕ
estimate_iterations_for_rate secs iterations_per_second =
    if secs * iterations_per_second == 0
    then err (invalid_argument (text "iterations cannot be zero"))
    else if ltb (secs * iterations_per_second) (2 ^ 64)
    then ok (secs * iterations_per_second)
    else err (invalid_argument (text "iterations overflow u64"))

unfoldable pub estimate_duration_seconds_for_rate : ℕ → ℕ → Option ℕ
estimate_duration_seconds_for_rate iterations iterations_per_second =
    if iterations_per_second == 0 then none else some (iterations / iterations_per_second)

abbrev pub current_machine_profile_id : Bytes
current_machine_profile_id = ascii "current-machine"

unfoldable pub is_current_machine_profile_id : Bytes → Bool
is_current_machine_profile_id profile_id = bytes_eq profile_id current_machine_profile_id

unfoldable pub ensure_current_machine_rate : Option ℕ → Result ℕ
ensure_current_machine_rate none =
    err (invalid_argument (text "current-machine hardware profile requires a machine calibration"))
ensure_current_machine_rate (some rate) =
    if rate == 0
    then err (invalid_argument (text "current-machine calibration must be greater than zero"))
    else ok rate

unfoldable pub resolve_iterations_per_second : Bytes → Option ℕ → Result ℕ
resolve_iterations_per_second profile_id current_rate =
    if is_current_machine_profile_id profile_id
    then ensure_current_machine_rate current_rate
    else get_profile profile_id >>= λ profile. ok profile.iterations_per_second

abbrev pub estimate_duration_on_current_machine_seconds : ℕ → Option ℕ → Option ℕ
estimate_duration_on_current_machine_seconds iterations none = none
estimate_duration_on_current_machine_seconds iterations (some rate) =
    estimate_duration_seconds_for_rate iterations rate

abbrev pub on_profile : ℕ → Result HardwareProfile → Option ℕ
on_profile iterations (ok profile) = some (iterations / max profile.iterations_per_second 1)
on_profile iterations (err e) = none

unfoldable pub estimate_duration_on_profile_seconds : ℕ → Bytes → Option ℕ
estimate_duration_on_profile_seconds iterations profile_id =
    on_profile iterations (get_profile profile_id)

unfoldable pub estimate_duration_on_profile_choice_seconds : ℕ → Bytes → Option ℕ → Option ℕ
estimate_duration_on_profile_choice_seconds iterations profile_id current_rate =
    if bytes_eq profile_id current_machine_profile_id
    then estimate_duration_on_current_machine_seconds iterations current_rate
    else estimate_duration_on_profile_seconds iterations profile_id

pub record ResolvedLockDifficulty : Type 0 where
  pub iterations : ℕ
  pub hardware_profile_id : Bytes
  pub target_seconds : Option ℕ

abbrev pub profile_or_default : Option Bytes → Bytes
profile_or_default none = ascii "high-end-2026"
profile_or_default (some profile_id) = profile_id

-- The check of an explicit number of iterations.
unfoldable pub resolve_explicit : ℕ → Bytes → Result ResolvedLockDifficulty
resolve_explicit iterations profile_id =
    let resolved : ResolvedLockDifficulty = record {
      iterations = iterations;
      hardware_profile_id = profile_id;
      target_seconds = none;
    } in
    if iterations == 0
    then err (invalid_argument (text "iterations must be greater than zero"))
    else if not (bytes_eq profile_id current_machine_profile_id)
    then (get_profile profile_id >>= λ profile. ok resolved)
    else ok resolved

unfoldable pub resolve_target : Bytes → Bytes → Option ℕ → Result ResolvedLockDifficulty
resolve_target target profile_id current_rate = do
  secs ← parse_duration_spec target
  rate ← resolve_iterations_per_second profile_id current_rate
  iterations ← estimate_iterations_for_rate secs rate
  ok (record {
    iterations = iterations;
    hardware_profile_id = profile_id;
    target_seconds = some secs;
  })

unfoldable pub resolve_lock_difficulty :
    Option ℕ → Option Bytes → Option Bytes → Option ℕ → Result ResolvedLockDifficulty
resolve_lock_difficulty (some iterations) target profile_id current_rate =
    resolve_explicit iterations (profile_or_default profile_id)
resolve_lock_difficulty none none profile_id current_rate =
    err (invalid_argument (text "either --target or --iterations must be provided"))
resolve_lock_difficulty none (some target) profile_id current_rate =
    resolve_target target (profile_or_default profile_id) current_rate
