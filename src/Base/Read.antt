-- ===== src/Base/Read.antt =====
-- `std::io::Read` on a `Cursor` over bytes: the state is the bytes that are left. Used by every
-- decoder (`read_exact`, `read_u8`, `read_u16`, `read_u32`, `read_u64`, `read_exact_vec`).
use timelocked.Common.{
  ℕ, ◌^◌, ◌<◌, ◌≡◌, [], refl, ap, ◌+◌, ◌∷◌, ◌++◌, arith, leb, le→leb, if◌then◌else◌, length, take,
  drop, take-append, drop-append, length-append, length-take, take-append-drop,
}
use timelocked.Common.Bytes.{
  Bytes, IsByte, IsBytes, All-split, from_le-lt, le_bytes, from_le, length-le_bytes,
  from_le-le_bytes,
}
use mathlib.Core.Path.{subst, subst₂}
use timelocked.Base.{Error, Result, ok, err, io}

-- A step of a decoder: its value and the bytes that it leaves, or an error.
abbrev pub Parser {ℓ} : Type ℓ → Type ℓ
Parser A = Bytes → Result (A × Bytes)

abbrev pub continue {ℓ κ} :
    {A : Type ℓ} {B : Type κ} → Result (A × Bytes) → (A → Parser B) → Result (B × Bytes)
continue (ok (a, rest)) f = f a rest
continue (err e) f = err e

infixl 5 ◌>>=◌ ◌>>◌
abbrev pub ◌>>=◌ {ℓ κ} : {A : Type ℓ} {B : Type κ} → Parser A → (A → Parser B) → Parser B
◌>>=◌ m f s = continue (m s) f

abbrev pub ◌>>◌ {ℓ} : {B : Type ℓ} → Parser (Unit {0}) → Parser B → Parser B
m >> k = m >>= λ _. k

abbrev pub pure {ℓ} : {A : Type ℓ} → A → Parser A
pure a s = ok (a, s)

abbrev pub lift {ℓ} : {A : Type ℓ} → Result A → Parser A
lift (ok a) s = ok (a, s)
lift (err e) s = err e

abbrev pub unexpected_eof : Error
unexpected_eof = io "failed to fill whole buffer"

unfoldable pub read_exact : ℕ → Parser Bytes
read_exact n s = if leb n (length s) then ok (take n s, drop n s) else err unexpected_eof

unfoldable pub read_u8 : Parser ℕ
read_u8 [] = err unexpected_eof
read_u8 (b ∷ rest) = ok (b, rest)

-- `from_le_bytes` of the next w bytes.
unfoldable pub read_le : ℕ → Parser ℕ
read_le w = do bytes ← read_exact w; pure (from_le bytes)

unfoldable pub read_u16 : Parser ℕ
read_u16 = read_le 2

unfoldable pub read_u32 : Parser ℕ
read_u32 = read_le 4

unfoldable pub read_u64 : Parser ℕ
read_u64 = read_le 8

pub read_exact-append :
    (n : ℕ) (xs rest : Bytes) → length xs ≡ n → read_exact n (xs ++ rest) ≡ ok (xs, rest)
unfolding read_exact
read_exact-append n xs rest h = rw (
  le→leb n (length (xs ++ rest)) (omega (arith, length-append xs rest)),
  take-append n xs rest h,
  drop-append n xs rest h,
)

-- What `read_exact` returns is the front of its input.
pub read_exact-split :
    (n : ℕ) (s xs rest : Bytes)
    → read_exact n s ≡ ok (xs, rest)
    → (s ≡ xs ++ rest) × (length xs ≡ n)
unfolding read_exact
read_exact-split n s xs rest h = ground (arith, take-append-drop n s, length-take n s)

pub read_le-le_bytes :
    (w n : ℕ) (rest : Bytes) → n < 256 ^ w → read_le w (le_bytes w n ++ rest) ≡ ok (n, rest)
read_le-le_bytes w n rest h =
    unfold read_le in
    rw (read_exact-append w (le_bytes w n) rest (length-le_bytes w n), from_le-le_bytes w n h)

pub read_u16_lem :
    (n : ℕ) (rest : Bytes) → n < 2 ^ 16 → read_u16 (le_bytes 2 n ++ rest) ≡ ok (n, rest)
unfolding read_u16
read_u16_lem n rest h = read_le-le_bytes 2 n rest h

pub read_u32_lem :
    (n : ℕ) (rest : Bytes) → n < 2 ^ 32 → read_u32 (le_bytes 4 n ++ rest) ≡ ok (n, rest)
unfolding read_u32
read_u32_lem n rest h = read_le-le_bytes 4 n rest h

pub read_u64_lem :
    (n : ℕ) (rest : Bytes) → n < 2 ^ 64 → read_u64 (le_bytes 8 n ++ rest) ≡ ok (n, rest)
unfolding read_u64
read_u64_lem n rest h = read_le-le_bytes 8 n rest h

-- Inversion of a successful step.
pub continue-eq-ok {ℓ κ} :
    {A : Type ℓ} {B : Type κ} (r : Result (A × Bytes)) (f : A → Parser B) {b : B} {rest : Bytes}
    → continue r f ≡ ok (b, rest)
    → (a : A) × (mid : Bytes) × (r ≡ ok (a, mid)) × (f a mid ≡ ok (b, rest))
continue-eq-ok (ok (a, mid)) f h = (a, mid, refl, h)
continue-eq-ok (err e) f h = cc

-- The same as a rule: its continuation names the parts, which keeps later goals small.
pub continue-inv {ℓ κ μ} :
    {A : Type ℓ} {B : Type κ} {G : Type μ} (r : Result (A × Bytes)) (f : A → Parser B) {b : B}
    {rest : Bytes}
    → continue r f ≡ ok (b, rest)
    → ((a : A) (mid : Bytes) → r ≡ ok (a, mid) → f a mid ≡ ok (b, rest) → G)
    → G
continue-inv (ok (a, mid)) f h k = k a mid refl h
continue-inv (err e) f h k = absurd (cc)

-- What a successful read of w bytes leaves, and the range of what it returns.
pub record ReadsTo (w : ℕ) (s rest : Bytes) : Type 0 where
  pub shorter : length s ≡ w + length rest
  pub bytes : IsBytes s → IsBytes rest

pub read_exact-ReadsTo :
    (n : ℕ) (s xs rest : Bytes) → read_exact n s ≡ ok (xs, rest) → ReadsTo n s rest
read_exact-ReadsTo n s xs rest h =
    let (e, l) = read_exact-split n s xs rest h in
    record {
      shorter = omega (arith, ap (λ (t : Bytes). length t) e, length-append xs rest);
      bytes = λ b. (All-split IsByte xs rest (subst IsBytes e b)).1;
    }

pub read_u8-ReadsTo :
    (s : Bytes) (n : ℕ) (rest : Bytes) → read_u8 s ≡ ok (n, rest) → ReadsTo 1 s rest
unfolding read_u8
read_u8-ReadsTo [] n rest h = cc
read_u8-ReadsTo (b ∷ s) n rest h =
    let e : s ≡ rest = cc in rw (← e) (record { shorter = omega arith; bytes = λ b. b.1 })

pub read_le-ReadsTo :
    (w : ℕ) (s : Bytes) (n : ℕ) (rest : Bytes)
    → read_le w s ≡ ok (n, rest)
    → ReadsTo w s rest × (IsBytes s → n < 256 ^ w)
unfolding read_le
read_le-ReadsTo w s n rest h =
    let (xs, mid, read, same) = continue-eq-ok (read_exact w s) _ h in
    let (e, l) = read_exact-split w s xs mid read in
    let left : mid ≡ rest = cc in
    let value : from_le xs ≡ n = cc in
    (
      subst (λ t. ReadsTo w s t) left (read_exact-ReadsTo w s xs mid read),
      λ b.
          subst₂ (λ n k. n < 256 ^ k) value l
            (from_le-lt xs (All-split IsByte xs mid (subst IsBytes e b)).0),
    )
