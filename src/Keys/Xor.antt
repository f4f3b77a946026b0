-- ===== src/Keys/Xor.antt =====
-- `xor_32` of password_protection.rs and puzzle_service.rs, and why it is its own inverse.
use Prim.Native.Nat.{
  ℕ, zero, suc, ◌+◌, ◌*◌, ◌/◌, ◌%◌, ◌≤◌, ◌<◌, bit_xor, digits, differ, bit_xor-bitwise,
}
use timelocked.Common.{◌≡◌, refl, ap, ◌∙◌, [], ◌∷◌, arith, length}
use timelocked.Common.Bytes.{Bytes}

-- The loop over the 32 positions of two arrays of that length.
unfoldable pub xor_32 : Bytes → Bytes → Bytes
xor_32 (l ∷ ls) (r ∷ rs) = bit_xor l r ∷ xor_32 ls rs
xor_32 _ _ = []

xor_runs : xor_32 (0xff ∷ 0x0f ∷ []) (0x0f ∷ 0x0f ∷ []) ≡ 0xf0 ∷ 0 ∷ []
unfolding xor_32
xor_runs = refl

-- One equation for the lowest digit, from the definition that the native operation stands for.
xor_fuel :
    (n m a b : ℕ) → a ≤ n → a ≤ m → digits (λ y. y) differ n a b ≡ digits (λ y. y) differ m a b
xor_fuel zero zero a b p q = refl
xor_fuel zero (suc m) zero b p q = refl
xor_fuel zero (suc m) (suc a) b p q = absurd (omega arith)
xor_fuel (suc n) zero zero b p q = refl
xor_fuel (suc n) zero (suc a) b p q = absurd (omega arith)
xor_fuel (suc n) (suc m) zero b p q = refl
xor_fuel (suc n) (suc m) (suc a) b p q =
    ap (λ t. t * 2 + differ (suc a % 2) (b % 2))
      (xor_fuel n m (suc a / 2) (b / 2) (omega arith) (omega arith))

zero-bit_xor : (b : ℕ) → bit_xor 0 b ≡ b
zero-bit_xor b = bit_xor-bitwise 0 b

differ-zero : (y : ℕ) → y < 2 → differ 0 y ≡ y
differ-zero zero h = refl
differ-zero (suc zero) h = refl
differ-zero (suc (suc y)) h = absurd (omega arith)

bit_xor_step : (a b : ℕ) → bit_xor a b ≡ bit_xor (a / 2) (b / 2) * 2 + differ (a % 2) (b % 2)
bit_xor_step zero b =
    omega (arith, zero-bit_xor b, zero-bit_xor (b / 2), differ-zero (b % 2) (omega arith))
bit_xor_step (suc a) b =
    rw (bit_xor-bitwise (suc a) b, bit_xor-bitwise (suc a / 2) (b / 2))
      (ap (λ t. t * 2 + differ (suc a % 2) (b % 2))
        (xor_fuel a (suc a / 2) (suc a / 2) (b / 2) (omega arith) (omega arith)))

differ-differ : (x y : ℕ) → x < 2 → y < 2 → (differ (differ x y) y ≡ x) × (differ x y < 2)
differ-differ zero zero p q = (refl, omega arith)
differ-differ zero (suc zero) p q = (refl, omega arith)
differ-differ (suc zero) zero p q = (refl, omega arith)
differ-differ (suc zero) (suc zero) p q = (refl, omega arith)
differ-differ (suc (suc x)) y p q = absurd (omega arith)
differ-differ x (suc (suc y)) p q = absurd (omega arith)

-- Halving and the lowest digit of an exclusive or.
bit_xor_parts :
    (a b : ℕ)
    → (bit_xor a b / 2 ≡ bit_xor (a / 2) (b / 2)) × (bit_xor a b % 2 ≡ differ (a % 2) (b % 2))
bit_xor_parts a b =
    let (_, small) = differ-differ (a % 2) (b % 2) (omega arith) (omega arith) in
    (omega (arith, bit_xor_step a b, small), omega (arith, bit_xor_step a b, small))

bit_xor_again : (n a b : ℕ) → a ≤ n → b ≤ n → bit_xor (bit_xor a b) b ≡ a
bit_xor_again zero zero zero p q = refl
bit_xor_again zero (suc a) b p q = absurd (omega arith)
bit_xor_again zero a (suc b) p q = absurd (omega arith)
bit_xor_again (suc n) a b p q =
    let (half, low) = bit_xor_parts a b in
    let (back, _) = differ-differ (a % 2) (b % 2) (omega arith) (omega arith) in
    let ih : bit_xor (bit_xor (a / 2) (b / 2)) (b / 2) ≡ a / 2 =
      bit_xor_again n (a / 2) (b / 2) (omega arith) (omega arith) in
    bit_xor_step (bit_xor a b) b ∙ rw (half, low, ih, back) (omega arith)

pub bit_xor_self_inverse : (a b : ℕ) → bit_xor (bit_xor a b) b ≡ a
bit_xor_self_inverse a b = bit_xor_again (a + b) a b (omega arith) (omega arith)

-- Wrapping twice under one key gives back what was wrapped.
pub xor_32-xor_32 : (a k : Bytes) → length a ≡ length k → xor_32 (xor_32 a k) k ≡ a
unfolding xor_32
xor_32-xor_32 [] [] h = refl
xor_32-xor_32 [] (y ∷ ys) h = refl
xor_32-xor_32 (x ∷ xs) [] h = absurd (omega arith)
xor_32-xor_32 (x ∷ xs) (y ∷ ys) h = rw (bit_xor_self_inverse x y, xor_32-xor_32 xs ys (omega arith))

pub length-xor_32 : (a k : Bytes) → length a ≡ length k → length (xor_32 a k) ≡ length k
unfolding xor_32
length-xor_32 [] [] h = refl
length-xor_32 [] (y ∷ ys) h = absurd (omega arith)
length-xor_32 (x ∷ xs) [] h = refl
length-xor_32 (x ∷ xs) (y ∷ ys) h = ap suc (length-xor_32 xs ys (omega arith))
