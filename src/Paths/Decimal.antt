-- ===== src/Paths/Decimal.antt =====
-- A number in decimal digits, as `format!` prints it.
use timelocked.Common.{ℕ, zero, suc, ◌+◌, ◌/◌, ◌%◌, [], ◌∷◌, ltb, if◌then◌else◌}
use timelocked.Common.Bytes.{Bytes}

-- The digits of n in front of those that are there, on fuel of at least its number of digits.
abbrev pub digits_before : ℕ → ℕ → Bytes → Bytes
digits_before zero n acc = acc
digits_before (suc fuel) n acc =
    let more = digits_before fuel (n / 10) ((48 + n % 10) ∷ acc) in
    if ltb n 10 then (48 + n) ∷ acc else more

-- Twenty digits are enough for a u64.
unfoldable pub decimal : ℕ → Bytes
decimal n = digits_before 20 n []
