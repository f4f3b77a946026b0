-- ===== src/Puzzle/Shortcut.antt =====
-- The solver's squarings and the creator's shortcut.
use timelocked.Common.{
  ℕ, zero, suc, ◌+◌, ◌-◌, ◌*◌, ◌%◌, ◌^◌, ◌<◌, ◌≡◌, refl, sym, ◌∙◌, arith, Bool, true, false, ◌==◌,
  ◌||◌, [], length,
}
use timelocked.Common.Bytes.{Bytes}
use timelocked.Base.{ok, is_cancelled, next_poll}
use timelocked.Primitives.{Primitives}
use timelocked.Primitives.Laws.{IsDigest}
use timelocked.Keys.Xor.{xor_32-xor_32}
use timelocked.Puzzle.Powers.{mod_mul, pow_add, pow_mod_period}
use timelocked.Puzzle.Service.{
  TimelockPuzzleMaterial, CreatedTimelockPuzzle, repeated_square_step, poll_if, solve_loop,
  derive_key_mask, create_puzzle_and_derive_mask, create_puzzle_and_wrap_key,
  solve_puzzle_mask_with_cancel, unwrap_key_with_cancel,
}
use native.Mathlib.Nat.{pow-suc, pow-zero, two-pow-succ, mod-mod}

pow_mod_base : (a n e : ℕ) → (a % n) ^ e % n ≡ a ^ e % n
pow_mod_base a n zero = rw (pow-zero (a % n), pow-zero a) refl
pow_mod_base a n (suc e) = rw (
  pow-suc (a % n) e,
  pow-suc a e,
  ← mod_mul ((a % n) ^ e) (a % n) n,
  pow_mod_base a n e,
  mod-mod a n,
  mod_mul (a ^ e) a n,
)

square_pow : (a e : ℕ) → (a * a) ^ e ≡ a ^ (e + e)
square_pow a zero = rw (pow-zero (a * a), pow-zero a) refl
square_pow a (suc e) =
    let regroup : (a ^ e * a ^ e) * (a * a) ≡ (a ^ e * a) * (a ^ e * a) = omega arith in
    rw (pow-suc (a * a) e, square_pow a e, pow_add a e e, pow_add a (suc e) (suc e), pow-suc a e)
      regroup

poll_if-none : (b : Bool) → poll_if b [] ≡ (false, [])
unfolding poll_if is_cancelled next_poll
poll_if-none true = refl
poll_if-none false = refl

-- So many rounds raise the value to a power of two.
solve_loop_lem :
    (n iterations left i v : ℕ)
    → solve_loop n iterations (suc left) i [] v ≡ ok (v ^ (2 ^ suc left) % n)
unfolding solve_loop repeated_square_step
solve_loop_lem n iterations zero i v =
    let power : v ^ 2 ≡ v * v = rw (pow-suc v 1, pow-suc v 0, pow-zero v) (omega arith) in
    rw (
      poll_if-none ((i + 1) % 1_024 == 0),
      poll_if-none (i + 1 == iterations || (i + 1) % 10_000 == 0),
      power,
    )
solve_loop_lem n iterations (suc left) i v = rw (
  poll_if-none ((i + 1) % 1_024 == 0),
  poll_if-none (i + 1 == iterations || (i + 1) % 10_000 == 0),
  solve_loop_lem n iterations left (i + 1) ((v * v) % n),
  pow_mod_base (v * v) n (2 ^ suc left),
  square_pow v (2 ^ suc left),
  two-pow-succ (suc left),
)

solve_all :
    (n iterations v : ℕ)
    → 0 < iterations
    → solve_loop n iterations iterations 0 [] v ≡ ok (v ^ (2 ^ iterations) % n)
solve_all n zero v h = absurd (omega arith)
solve_all n (suc left) v h = solve_loop_lem n (suc left) left 0 v

module _ (p : Primitives) (lcm : ℕ → ℕ → ℕ) (prime_p prime_q a : ℕ)
    (period : a ^ (lcm (prime_p - 1) (prime_q - 1)) % (prime_p * prime_q)
      ≡ 1 % (prime_p * prime_q)) where
  -- Solving a created puzzle by repeated squaring, never cancelled, returns the mask that the creator
  -- derived from the reduced exponent. The base raised to the least common multiple of p - 1 and
  -- q - 1 is 1 modulo p q.
  pub solve-create_puzzle :
      (iterations modulus_bits : ℕ) (puzzle : CreatedTimelockPuzzle) (wrapped_key : Bytes)
      → create_puzzle_and_derive_mask p lcm prime_p prime_q a iterations modulus_bits ≡ ok puzzle
      → solve_puzzle_mask_with_cancel p
          (record {
            modulus_n = puzzle.modulus_n;
            base_a = puzzle.base_a;
            wrapped_key = wrapped_key;
            iterations = puzzle.iterations;
            modulus_bits = puzzle.modulus_bits;
          })
          []
        ≡ ok puzzle.solution_mask
  unfolding create_puzzle_and_derive_mask solve_puzzle_mask_with_cancel is_cancelled next_poll
  solve-create_puzzle iterations modulus_bits puzzle wrapped_key h =
      let some : 0 < iterations = ground arith in
      ground (
        arith,
        solve_all (prime_p * prime_q) iterations a some,
        pow_mod_period a (prime_p * prime_q) (lcm (prime_p - 1) (prime_q - 1)) (2 ^ iterations)
            period,
      )

  -- Unwrapping the key of a created puzzle returns the key that was wrapped, a key of 32 bytes,
  -- when it is never cancelled. The digest has 32 bytes, and the base raised to the least common
  -- multiple of p - 1 and q - 1 is 1 modulo p q.
  pub unwrap-create_puzzle :
      IsDigest p
      → (key : Bytes) (iterations modulus_bits : ℕ) (material : TimelockPuzzleMaterial)
      → length key ≡ 32
      → create_puzzle_and_wrap_key p lcm prime_p prime_q a key iterations modulus_bits ≡ ok material
      → unwrap_key_with_cancel p material [] ≡ ok key
  unfolding create_puzzle_and_wrap_key unwrap_key_with_cancel create_puzzle_and_derive_mask
      solve_puzzle_mask_with_cancel is_cancelled next_poll derive_key_mask
  unwrap-create_puzzle digest key iterations modulus_bits material sized h =
      let some : 0 < iterations = ground arith in
      let b = a ^ (2 ^ iterations % lcm (prime_p - 1) (prime_q - 1)) % (prime_p * prime_q) in
      let mask = p.blake3 (p.to_bytes_be b) in
      ground (
        arith,
        solve_all (prime_p * prime_q) iterations a some,
        pow_mod_period a (prime_p * prime_q) (lcm (prime_p - 1) (prime_q - 1)) (2 ^ iterations)
            period,
        xor_32-xor_32 key mask (sized ∙ sym (digest.sized (p.to_bytes_be b))),
      )
