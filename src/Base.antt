-- ===== src/Base.antt =====
-- base/error.rs, base/result.rs, base/cancellation_token.rs: errors as values, and the answers of
-- a cancellation token.
pub mod Read
use timelocked.Common.{ℕ, String, Bool, true, false, List, [], ◌∷◌, ◌≡◌, refl, if◌then◌else◌}
use timelocked.Common.Bytes.{Bytes}

-- The text of a message. `format!` with numbers keeps its template and its arguments, and a
-- message that prints another error keeps that error's text.
pub data Message : Type 0 where
  text : String → Message
  fmt : String → List ℕ → Message
  caused : String → Message → Message

-- The variants of `Error`. `out_of_fuel` is none of the program's: a loop of the model would
-- answer it if its bound on rounds were too small.
pub data Error : Type 0 where
  io : String → Error
  json : String → Error
  invalid_argument : Message → Error
  invalid_format : Message → Error
  unsupported_version : ℕ → Error
  output_exists : Bytes → Error
  crypto : Message → Error
  verification : Message → Error
  cancelled : Error
  out_of_fuel : Error

-- The `#[error("...")]` texts. A path is printed by its bytes.
unfoldable pub display : Error → Message
display (io e) = caused "io error: {}" (text e)
display (json e) = caused "json error: {}" (text e)
display (invalid_argument m) = caused "invalid argument: {}" m
display (invalid_format m) = caused "invalid format: {}" m
display (unsupported_version v) = fmt "unsupported format version: {}" (v ∷ [])
display (output_exists p) = fmt "output already exists: {}" p
display (crypto m) = caused "cryptographic error: {}" m
display (verification m) = caused "verification failed: {}" m
display cancelled = text "operation cancelled"
display out_of_fuel = text ""

-- The `?` operator hands an error on.
infixl 5 ◌>>=◌ ◌>>◌
pub data Result {ℓ} (T : Type ℓ) : Type ℓ where
  ok : T → Result T
  err : Error → Result T

abbrev pub map_err {ℓ} : {T : Type ℓ} → (Error → Error) → Result T → Result T
map_err f (ok value) = ok value
map_err f (err e) = err (f e)

abbrev pub ◌>>=◌ {ℓ μ} : {T : Type ℓ} {U : Type μ} → Result T → (T → Result U) → Result U
err e >>= next = err e
ok value >>= next = next value

abbrev pub ◌>>◌ {ℓ} : {U : Type ℓ} → Result (Unit {0}) → Result U → Result U
first >> next = first >>= λ _. next

-- `if test { return Err(e); }`
abbrev pub reject_if : Bool → Error → Result (Unit {0})
reject_if true e = err e
reject_if false e = ok tt

-- Inversion of a successful bind, as a rule whose continuation names the parts.
pub bind-inv {ℓ κ μ} :
    {A : Type ℓ} {B : Type κ} {G : Type μ} (m : Result A) (f : A → Result B) {b : B}
    → (m >>= f) ≡ ok b
    → ((a : A) → m ≡ ok a → f a ≡ ok b → G)
    → G
bind-inv (ok a) f h k = k a refl h
bind-inv (err e) f h k = absurd (cc)

-- What the token answers at the polls to come, one by one; past the end of the list it answers
-- that nothing was cancelled. `None` in place of a token is the empty list.
abbrev pub Polls : Type 0
Polls = List Bool

unfoldable pub is_cancelled : Polls → Bool
is_cancelled [] = false
is_cancelled (b ∷ rest) = b

unfoldable pub next_poll : Polls → Polls
next_poll [] = []
next_poll (b ∷ rest) = rest

unfoldable pub ensure_not_cancelled : Polls → Result (Unit {0})
unfolding is_cancelled
ensure_not_cancelled polls = if is_cancelled polls then err cancelled else ok tt
