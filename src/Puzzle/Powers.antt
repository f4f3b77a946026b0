-- ===== src/Puzzle/Powers.antt =====
-- Powers modulo a number.
use timelocked.Common.{ℕ, zero, suc, ◌+◌, ◌*◌, ◌/◌, ◌%◌, ◌^◌, ◌≡◌, refl, sym, ap, ◌∙◌, arith}
use native.Mathlib.Nat.{add-mul-mod_self_left, div-add-mod', pow-suc, pow-zero}
use mathlib.Core.Path.{subst}

split_mod : (q r b n : ℕ) → ((q * n + r) * b) % n ≡ (r * b) % n
split_mod q r b n =
    let same : (q * n + r) * b ≡ r * b + n * (q * b) = omega arith in
    rw (same, add-mul-mod_self_left (r * b) n (q * b))

mod_mul_left : (a b n : ℕ) → ((a % n) * b) % n ≡ (a * b) % n
mod_mul_left a b n = sym (
    subst (λ t. (t * b) % n ≡ ((a % n) * b) % n) (div-add-mod' a n) (split_mod (a / n) (a % n) b n))

pub mod_mul : (a b n : ℕ) → ((a % n) * (b % n)) % n ≡ (a * b) % n
mod_mul a b n =
    let left : ((a % n) * (b % n)) % n ≡ (a * (b % n)) % n = mod_mul_left a (b % n) n in
    let swap : a * (b % n) ≡ (b % n) * a = omega arith in
    let back : b * a ≡ a * b = omega arith in
    left ∙ ap (λ t. t % n) swap ∙ mod_mul_left b a n ∙ ap (λ t. t % n) back

pub pow_add : (a i j : ℕ) → a ^ (i + j) ≡ a ^ i * a ^ j
pow_add a i zero = rw (pow-zero a) (ground arith)
pow_add a i (suc j) =
    let next : i + suc j ≡ suc (i + j) = omega arith in
    let regroup : (a ^ i * a ^ j) * a ≡ a ^ i * (a ^ j * a) = omega arith in
    rw (next, pow-suc a (i + j), pow-suc a j, pow_add a i j) regroup

-- Exponents count modulo any number to which the base is raised to 1.
pub pow_mod :
    (a n period : ℕ) → (a ^ period) % n ≡ 1 % n → (k r : ℕ) → a ^ (k * period + r) % n ≡ a ^ r % n
pow_mod a n period h zero r = rw (let e : 0 * period + r ≡ r = omega arith in e) refl
pow_mod a n period h (suc k) r =
    let next : suc k * period + r ≡ period + (k * period + r) = omega arith in
    let one : 1 * (a ^ r) ≡ a ^ r = omega arith in
    rw (
      next,
      pow_add a period (k * period + r),
      ← mod_mul (a ^ period) (a ^ (k * period + r)) n,
      h,
      pow_mod a n period h k r,
      mod_mul 1 (a ^ r) n,
      one,
    )

pub pow_mod_period :
    (a n period e : ℕ) → (a ^ period) % n ≡ 1 % n → a ^ e % n ≡ a ^ (e % period) % n
pow_mod_period a n period e h =
    subst (λ t. a ^ t % n ≡ a ^ (e % period) % n) (div-add-mod' e period)
      (pow_mod a n period h (e / period) (e % period))
