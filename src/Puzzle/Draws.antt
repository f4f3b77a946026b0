-- ===== src/Puzzle/Draws.antt =====
-- The first draws that fit are taken.
use timelocked.Common.{
  ℕ, zero, suc, ◌+◌, ◌-◌, ◌/◌, ◌%◌, ◌≤◌, ◌<◌, ◌≡◌, refl, ◌⊎◌, inl, inr, Bool, true, false, List, [],
  ◌∷◌, ◌==◌, Bool-cases, ltb, length, All, arith,
}
use native.Mathlib.Nat.{mod-lt}
use timelocked.Common.Bytes.{Bytes}
use timelocked.Base.{ok}
use timelocked.Puzzle.Generate.{
  PrimeDraws, gen_blum_prime, too_close, is_rejected, gen_other_prime, gen_primes,
  random_coprime_base,
}

-- Draws that succeed.
abbrev pub drawn : List ℕ → PrimeDraws → PrimeDraws
drawn [] draws = draws
drawn (x ∷ xs) draws = ok x ∷ drawn xs draws

abbrev pub is_blum : ℕ → Bool
is_blum x = x % 4 == 3

is_blum-true : (x : ℕ) → x % 4 ≡ 3 → is_blum x ≡ true
is_blum-true x h = ground arith

is_blum-false : (x : ℕ) → ¬ (x % 4 ≡ 3) → is_blum x ≡ false
is_blum-false x h = ground arith

gen_blum_prime-first :
    (before : List ℕ) (c : ℕ) (draws : PrimeDraws)
    → All (λ x. ¬ (x % 4 ≡ 3)) before
    → c % 4 ≡ 3
    → gen_blum_prime (drawn before (ok c ∷ draws)) ≡ ok (c, draws)
unfolding gen_blum_prime
gen_blum_prime-first [] c draws h blum = rw (is_blum-true c blum) refl
gen_blum_prime-first (x ∷ before) c draws (h, hs) blum =
    rw (is_blum-false x h) (gen_blum_prime-first before c draws hs blum)

-- The distance of two numbers: one of the differences is 0.
abbrev pub distance : ℕ → ℕ → ℕ
distance p q = (p - q) + (q - p)

module _ (bits : ℕ → ℕ) (p min_diff_bits : ℕ) where
  -- Not 3 modulo 4, or p, or at a distance from p of too few bits.
  abbrev pub IsUnfit : ℕ → Type 0
  IsUnfit q = ¬ (q % 4 ≡ 3) ⊎ ((q ≡ p) ⊎ (bits (distance p q) < min_diff_bits))

  abbrev pub IsFit : ℕ → Type 0
  IsFit q = (q % 4 ≡ 3) × (¬ (q ≡ p) × (min_diff_bits ≤ bits (distance p q)))

  too_close-distance :
      (q : ℕ) → too_close bits p q min_diff_bits ≡ ltb (bits (distance p q)) min_diff_bits
  unfolding too_close
  too_close-distance q = elim (Bool-cases (ltb q p)) [
    | inl below ↦ let e : distance p q ≡ p - q = ground arith in rw (below, e) refl
    | inr above ↦ let e : distance p q ≡ q - p = ground arith in rw (above, e) refl
  ]

  is_rejected-IsUnfit :
      (q : ℕ)
      → (q ≡ p) ⊎ (bits (distance p q) < min_diff_bits)
      → is_rejected bits p min_diff_bits q ≡ true
  is_rejected-IsUnfit q h = rw (too_close-distance q) (ground arith)

  is_rejected-IsFit : (q : ℕ) → IsFit q → is_rejected bits p min_diff_bits q ≡ false
  is_rejected-IsFit q h = rw (too_close-distance q) (ground arith)

  gen_other_prime-first :
      (fuel : ℕ) (before : List ℕ) (c : ℕ) (draws : PrimeDraws)
      → length before < fuel
      → All IsUnfit before
      → IsFit c
      → gen_other_prime bits fuel p min_diff_bits (drawn before (ok c ∷ draws)) ≡ ok (c, draws)
  unfolding gen_other_prime gen_blum_prime
  gen_other_prime-first zero before c draws enough hs fit = absurd (omega arith)
  gen_other_prime-first (suc fuel) [] c draws enough hs fit =
      rw (is_blum-true c fit.0, is_rejected-IsFit c fit) refl
  gen_other_prime-first (suc fuel) (x ∷ before) c draws enough (inl h, hs) fit =
      rw (is_blum-false x h) (gen_other_prime-first (suc fuel) before c draws (omega arith) hs fit)
  gen_other_prime-first (suc fuel) (x ∷ before) c draws enough (inr rejected, hs) fit =
      let rest = gen_other_prime-first fuel before c draws (omega arith) hs fit in
      elim (Bool-cases (is_blum x)) [
        | inl blum ↦ rw (blum, is_rejected-IsUnfit x rejected) rest
        | inr other ↦
            rw other (gen_other_prime-first (suc fuel) before c draws (omega arith) hs fit)
      ]

length-drawn : (xs : List ℕ) (draws : PrimeDraws) → length xs ≤ length (drawn xs draws)
length-drawn [] draws = omega arith
length-drawn (x ∷ xs) draws = omega (arith, length-drawn xs draws)

-- Where the draws up to two fitting ones all succeed, the primes of a puzzle are the first drawn p
-- that is 3 modulo 4, and the first q drawn behind it that is 3 modulo 4, is not p, and whose
-- distance from p has a quarter of the modulus bits or more.
pub gen_primes-first :
    (bits : ℕ → ℕ) (modulus_bits : ℕ) (before : List ℕ) (p : ℕ) (between : List ℕ) (q : ℕ)
    (draws : PrimeDraws)
    → All (λ x. ¬ (x % 4 ≡ 3)) before
    → p % 4 ≡ 3
    → All (IsUnfit bits p (modulus_bits / 4)) between
    → IsFit bits p (modulus_bits / 4) q
    → gen_primes bits modulus_bits (drawn before (ok p ∷ drawn between (ok q ∷ draws))) ≡ ok (p, q)
unfolding gen_primes
gen_primes-first bits modulus_bits before p between q draws none_before blum_p none_between fit =
    let quarter : modulus_bits / 2 / 2 ≡ modulus_bits / 4 = omega arith in
    rw
      (
        gen_blum_prime-first before p (drawn between (ok q ∷ draws)) none_before blum_p,
        quarter,
        gen_other_prime-first bits p (modulus_bits / 4)
            (suc (length (drawn between (ok q ∷ draws)))) between q draws
            (omega (arith, length-drawn between (ok q ∷ draws))) none_between fit,
      )
      refl

-- A base that `random_coprime_base` returns is at least 2, below a positive modulus, and coprime to it.
random_coprime_base-IsCoprime :
    (from_bytes_be : Bytes → ℕ) (gcd : ℕ → ℕ → ℕ) (modulus_n : ℕ) (draws : List Bytes) (a : ℕ)
    → 0 < modulus_n
    → random_coprime_base from_bytes_be gcd modulus_n draws ≡ ok a
    → (2 ≤ a) × (a < modulus_n) × (gcd a modulus_n ≡ 1)
unfolding random_coprime_base
random_coprime_base-IsCoprime from_bytes_be gcd modulus_n [] a positive h = cc
random_coprime_base-IsCoprime from_bytes_be gcd modulus_n (bytes ∷ draws) a positive h = ground (
  arith,
  mod-lt (from_bytes_be bytes) positive,
  random_coprime_base-IsCoprime from_bytes_be gcd modulus_n draws a positive,
)
