-- ===== src/Paths/Numbering.antt =====
-- The number in a file name is read back: from lock_output_path.rs to output_path.rs and on.
use timelocked.Common.{
  ℕ, zero, suc, ◌+◌, ◌-◌, ◌*◌, ◌/◌, ◌%◌, ◌^◌, ◌≤◌, ◌<◌, ◌≡◌, refl, ◌∙◌, ap, true, false, none, some,
  [], ◌∷◌, ◌++◌, arith, ltb, Bool-cases, inl, inr, ◌==◌, is_empty, All,
}
use native.Mathlib.Nat.{pow-suc}
use timelocked.Common.Bytes.{Bytes}
use timelocked.Difficulty.Resolve.{parse_u64, digits}
use timelocked.Paths.FilePath.{rsplit_dot}
use timelocked.Paths.Decimal.{digits_before, decimal}
use timelocked.Paths.Output.{all_digits, parse_suffix_index, u64_max}

abbrev IsDigit : ℕ → Type 0
IsDigit b = (48 ≤ b) × (b ≤ 57)

-- The value of digits behind a value that was read.
abbrev value_of : ℕ → Bytes → ℕ
value_of v [] = v
value_of v (b ∷ rest) = value_of (v * 10 + (b - 48)) rest

-- Reading digits, where the value stays in range.
digits-value_of :
    (ds : Bytes) (v : ℕ)
    → All IsDigit ds
    → value_of v ds < 2 ^ 64
    → digits v ds ≡ some (value_of v ds)
digits-value_of [] v h lt = ground arith
digits-value_of (b ∷ ds) v (hb, hs) lt =
    let more = digits-value_of ds (v * 10 + (b - 48)) hs lt in ground (arith, more)

-- The number that is printed stands in front of the digits that were there.
value_of-digits_before :
    (fuel n : ℕ) (acc : Bytes)
    → n < 10 ^ fuel
    → value_of 0 (digits_before fuel n acc) ≡ value_of n acc
value_of-digits_before zero n acc h = let e : n ≡ 0 = omega arith in rw e refl
value_of-digits_before (suc fuel) n acc h =
    let low : 0 * 10 + (48 + n - 48) ≡ n = omega arith in
    let high : n / 10 * 10 + (48 + n % 10 - 48) ≡ n = omega arith in
    let bound : n / 10 < 10 ^ fuel = omega (arith, pow-suc 10 fuel) in
    let more = value_of-digits_before fuel (n / 10) ((48 + n % 10) ∷ acc) bound in
    let last = ap (λ t. value_of t acc) low in
    let onward = more ∙ ap (λ t. value_of t acc) high in
    elim (Bool-cases (ltb n 10)) [ inl small ↦ rw small last | inr large ↦ rw large onward ]

digits_before-IsDigit :
    (fuel n : ℕ) (acc : Bytes) → All IsDigit acc → All IsDigit (digits_before fuel n acc)
digits_before-IsDigit zero n acc h = h
digits_before-IsDigit (suc fuel) n acc h =
    ground (arith, digits_before-IsDigit fuel (n / 10) ((48 + n % 10) ∷ acc))

-- At least one digit.
abbrev IsNonEmpty : Bytes → Type 0
IsNonEmpty ds = is_empty ds ≡ false

digits_before-IsNonEmpty :
    (fuel n : ℕ) (acc : Bytes) → IsNonEmpty acc → IsNonEmpty (digits_before fuel n acc)
digits_before-IsNonEmpty zero n acc h = h
digits_before-IsNonEmpty (suc fuel) n acc h =
    let more = digits_before-IsNonEmpty fuel (n / 10) ((48 + n % 10) ∷ acc) refl in
    elim (Bool-cases (ltb n 10)) [ inl small ↦ rw small refl | inr large ↦ rw large more ]

decimal-IsNonEmpty : (n : ℕ) → IsNonEmpty (decimal n)
unfolding decimal
decimal-IsNonEmpty n =
    let more = digits_before-IsNonEmpty 19 (n / 10) ((48 + n % 10) ∷ []) refl in
    elim (Bool-cases (ltb n 10)) [ inl small ↦ rw small refl | inr large ↦ rw large more ]

decimal-IsDigit : (n : ℕ) → All IsDigit (decimal n)
unfolding decimal
decimal-IsDigit n = digits_before-IsDigit 20 n [] tt

value_of-decimal : (n : ℕ) → n < 2 ^ 64 → value_of 0 (decimal n) ≡ n
unfolding decimal
value_of-decimal n h = value_of-digits_before 20 n [] (omega arith)

parse_u64-digits :
    (ds : Bytes)
    → All IsDigit ds
    → IsNonEmpty ds
    → value_of 0 ds < 2 ^ 64
    → parse_u64 ds ≡ some (value_of 0 ds)
unfolding parse_u64
parse_u64-digits [] h some_digit lt = cc
parse_u64-digits (b ∷ ds) (hb, hs) some_digit lt =
    let unsigned : (b == 43) ≡ false = ground arith in
    rw unsigned (digits-value_of (b ∷ ds) 0 (hb, hs) lt)

-- `parse::<u64>` reads back the decimal text of a u64.
pub parse_u64-decimal : (n : ℕ) → n < 2 ^ 64 → parse_u64 (decimal n) ≡ some n
parse_u64-decimal n h =
    let value = value_of-decimal n h in
    parse_u64-digits (decimal n) (decimal-IsDigit n) (decimal-IsNonEmpty n) (rw value h)
    ∙ ap (λ m. some m) value

rsplit_dot-digits : (ds : Bytes) → All IsDigit ds → rsplit_dot ds ≡ none
rsplit_dot-digits [] h = refl
rsplit_dot-digits (b ∷ ds) (hb, hs) =
    let other : (b == 46) ≡ false = ground arith in rw (rsplit_dot-digits ds hs, other) refl

rsplit_dot-append :
    (base ds : Bytes) → All IsDigit ds → rsplit_dot (base ++ (46 ∷ ds)) ≡ some (base, ds)
rsplit_dot-append [] ds h = rw (rsplit_dot-digits ds h) refl
rsplit_dot-append (b ∷ base) ds h = rw (rsplit_dot-append base ds h) refl

all_digits-digits : (ds : Bytes) → All IsDigit ds → all_digits ds ≡ true
all_digits-digits [] h = refl
all_digits-digits (b ∷ ds) (hb, hs) = ground (arith, all_digits-digits ds hs)

-- The stem of a numbered output name, a non-empty base, a dot and an index below `u64::MAX` in
-- decimal, is read as that base and the next index: the search goes on where the name stands.
pub parse_suffix_index-decimal :
    (base : Bytes) (index : ℕ)
    → is_empty base ≡ false
    → index < 2 ^ 64 - 1
    → parse_suffix_index (base ++ (46 ∷ decimal index)) ≡ (base, index + 1)
unfolding parse_suffix_index
parse_suffix_index-decimal base index named below =
    let further : (index == u64_max) ≡ false = ground arith in
    rw (
      rsplit_dot-append base (decimal index) (decimal-IsDigit index),
      named,
      decimal-IsNonEmpty index,
      all_digits-digits (decimal index) (decimal-IsDigit index),
      parse_u64-decimal index (omega arith),
      further,
    )
