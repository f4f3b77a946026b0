-- ===== src/Puzzle/Service.antt =====
-- Creating and solving a puzzle. What glass_pumpkin, the random generator and num-integer return is
-- given: the two primes, the base and the least common multiple. Progress and the benchmark's
-- clock are left out.
use timelocked.Common.{
  ℕ, zero, suc, ◌+◌, ◌-◌, ◌*◌, ◌/◌, ◌%◌, ◌^◌, min, Bool, true, false, not, ◌||◌, [], ◌∷◌, ltb, ◌==◌,
  if◌then◌else◌,
}
use timelocked.Common.Bytes.{Bytes}
use timelocked.Base.{
  Result, ok, err, cancelled, invalid_argument, text, fmt, Polls, is_cancelled, next_poll, ◌>>=◌,
}
use timelocked.Primitives.{Primitives}
use timelocked.Keys.Xor.{xor_32}

pub record TimelockPuzzleMaterial : Type 0 where
  pub modulus_n : ℕ
  pub base_a : ℕ
  pub wrapped_key : Bytes
  pub iterations : ℕ
  pub modulus_bits : ℕ

pub record CreatedTimelockPuzzle : Type 0 where
  pub modulus_n : ℕ
  pub base_a : ℕ
  pub iterations : ℕ
  pub modulus_bits : ℕ
  pub solution_mask : Bytes

-- The constant of a release build.
abbrev pub minimum_modulus_bits : ℕ
minimum_modulus_bits = 2_048

-- `BigUint::modpow`
abbrev pub modpow : ℕ → ℕ → ℕ → ℕ
modpow base exponent modulus = base ^ exponent % modulus

unfoldable pub repeated_square_step : ℕ → ℕ → ℕ
repeated_square_step value modulus_n = (value * value) % modulus_n

-- The poll behind every 1 024 steps: cancelled or not, and the polls to come.
unfoldable pub poll_if : Bool → Polls → Bool × Polls
poll_if true polls = (is_cancelled polls, next_poll polls)
poll_if false polls = (false, polls)

-- `for i in 0..iterations`, by the rounds that are left.
unfoldable pub solve_loop : ℕ → ℕ → ℕ → ℕ → Polls → ℕ → Result ℕ
solve_loop modulus_n iterations zero completed polls value = ok value
solve_loop modulus_n iterations (suc left) i polls value =
    let value' = repeated_square_step value modulus_n in
    let completed = i + 1 in
    let (stop, polls') = poll_if (completed % 1_024 == 0) polls in
    let should_emit = completed == iterations || completed % 10_000 == 0 in
    let (stop_emit, polls'') = poll_if should_emit polls' in
    let rest = solve_loop modulus_n iterations left completed polls'' value' in
    if stop then err cancelled else if stop_emit then err cancelled else rest

-- u128 arithmetic, where the products saturate at 2 ^ 128 - 1 and do not get there for a u64.
unfoldable pub calculate_iterations_per_second : ℕ → ℕ → ℕ
calculate_iterations_per_second iterations elapsed_nanos =
    if iterations == 0
    then 0
    else if elapsed_nanos == 0
    then iterations
    else min (min (iterations * 1_000_000_000 + elapsed_nanos / 2) (2 ^ 128 - 1) / elapsed_nanos)
        (2 ^ 64 - 1)

module _ (p : Primitives) where
  unfoldable pub derive_key_mask : ℕ → Bytes
  derive_key_mask result = p.blake3 (p.to_bytes_be result)

  unfoldable pub create_puzzle_and_derive_mask :
      (ℕ → ℕ → ℕ) → ℕ → ℕ → ℕ → ℕ → ℕ → Result CreatedTimelockPuzzle
  create_puzzle_and_derive_mask lcm prime_p prime_q a iterations modulus_bits =
      if iterations == 0
      then err (invalid_argument (text "iterations must be greater than zero"))
      else if ltb modulus_bits minimum_modulus_bits || not (modulus_bits % 2 == 0)
      then err
          (invalid_argument (fmt "modulus bits must be even and >= {}" (minimum_modulus_bits ∷ [])))
      else let n = prime_p * prime_q in
        let lambda = lcm (prime_p - 1) (prime_q - 1) in
        let exponent = modpow 2 iterations lambda in
        let b = modpow a exponent n in
        ok (record {
          modulus_n = n;
          base_a = a;
          iterations = iterations;
          modulus_bits = modulus_bits % 2 ^ 16;
          solution_mask = derive_key_mask b;
        })

  unfoldable pub create_puzzle_and_wrap_key :
      (ℕ → ℕ → ℕ) → ℕ → ℕ → ℕ → Bytes → ℕ → ℕ → Result TimelockPuzzleMaterial
  create_puzzle_and_wrap_key lcm prime_p prime_q a key iterations modulus_bits = do
    puzzle ← create_puzzle_and_derive_mask lcm prime_p prime_q a iterations modulus_bits
    ok (record {
      modulus_n = puzzle.modulus_n;
      base_a = puzzle.base_a;
      wrapped_key = xor_32 key puzzle.solution_mask;
      iterations = puzzle.iterations;
      modulus_bits = puzzle.modulus_bits;
    })

  unfoldable pub solve_puzzle_mask_with_cancel : TimelockPuzzleMaterial → Polls → Result Bytes
  solve_puzzle_mask_with_cancel material polls = if is_cancelled polls then err cancelled else do
    value ←
        solve_loop material.modulus_n material.iterations material.iterations 0 (next_poll polls)
          material.base_a
    ok (derive_key_mask value)

  unfoldable pub unwrap_key_with_cancel : TimelockPuzzleMaterial → Polls → Result Bytes
  unwrap_key_with_cancel material polls = do
    mask ← solve_puzzle_mask_with_cancel material polls
    ok (xor_32 material.wrapped_key mask)
