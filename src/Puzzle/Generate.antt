-- ===== src/Puzzle/Generate.antt =====
-- The numbers that puzzle_service.rs draws: two primes and a base. What glass_pumpkin's `prime::new`
-- and the random generator return, draw by draw, is given, as are `BigUint::bits` and the greatest
-- common divisor. A list of draws is the start of an endless one: past its end stands `out_of_fuel`.
use timelocked.Common.{
  ℕ, zero, suc, ◌-◌, ◌/◌, ◌%◌, Bool, ◌||◌, List, [], ◌∷◌, ltb, ◌==◌, if◌then◌else◌, length,
}
use timelocked.Common.Bytes.{Bytes}
use timelocked.Base.{Error, Result, ok, err, crypto, out_of_fuel, text, map_err, ◌>>=◌}

abbrev pub PrimeDraws : Type 0
PrimeDraws = List (Result ℕ)

abbrev pub failed_to_generate : Error → Error
failed_to_generate e = crypto (text "failed to generate prime {name}: {err}")

unfoldable pub gen_blum_prime : PrimeDraws → Result (ℕ × PrimeDraws)
gen_blum_prime [] = err out_of_fuel
gen_blum_prime (draw ∷ draws) = do
  candidate ← map_err failed_to_generate draw
  let more = gen_blum_prime draws
  (if candidate % 4 == 3 then ok (candidate, draws) else more)

module _ (bits : ℕ → ℕ) where
  unfoldable pub too_close : ℕ → ℕ → ℕ → Bool
  too_close p q min_diff_bits =
      let diff = if ltb q p then p - q else q - p in ltb (bits diff) min_diff_bits

  abbrev pub is_rejected : ℕ → ℕ → ℕ → Bool
  is_rejected p min_diff_bits q = (p == q) || too_close p q min_diff_bits

  -- The first q and the `while` that replaces it, on fuel.
  unfoldable pub gen_other_prime : ℕ → ℕ → ℕ → PrimeDraws → Result (ℕ × PrimeDraws)
  gen_other_prime zero p min_diff_bits draws = err out_of_fuel
  gen_other_prime (suc fuel) p min_diff_bits draws = do
    (q, draws) ← gen_blum_prime draws
    let more = gen_other_prime fuel p min_diff_bits draws
    (if is_rejected p min_diff_bits q then more else ok (q, draws))

  -- The primes of a puzzle. Each round of the loop takes a draw at least.
  unfoldable pub gen_primes : ℕ → PrimeDraws → Result (ℕ × ℕ)
  gen_primes modulus_bits draws = do
    let prime_bits = modulus_bits / 2
    (p, draws) ← gen_blum_prime draws
    (q, draws) ← gen_other_prime (suc (length draws)) p (prime_bits / 2) draws
    ok (p, q)

module _ (from_bytes_be : Bytes → ℕ) (gcd : ℕ → ℕ → ℕ) where
  unfoldable pub random_coprime_base : ℕ → List Bytes → Result ℕ
  random_coprime_base modulus_n [] = err out_of_fuel
  random_coprime_base modulus_n (bytes ∷ draws) =
      let candidate = from_bytes_be bytes % modulus_n in
      let more = random_coprime_base modulus_n draws in
      if ltb candidate 2 then more else if gcd candidate modulus_n == 1 then ok candidate else more
