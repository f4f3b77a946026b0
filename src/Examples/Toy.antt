-- ===== src/Examples/Toy.antt =====
-- Concrete libraries: a cipher that appends a tag of zeros, a sum for a checksum, a code that repeats
-- its one data shard, and big integers of a single digit.
use timelocked.Common.{
  ℕ, zero, suc, ◌+◌, ◌-◌, ◌%◌, ◌^◌, ◌≤◌, ◌<◌, ◌≡◌, refl, ap, ◌∙◌, arith, true, Option, none, some,
  List, [], ◌∷◌, ◌++◌, map, length, take, replicate, length-append, length-replicate, take-append,
  All,
}
use timelocked.Common.Bytes.{Bytes}
use timelocked.Primitives.{Primitives, RsResult, done, failed, other}
use timelocked.Primitives.Laws.{
  IsChecksum, IsAead, Knows, count_present, IsErasureCode, IsBigEndian, IsDigest, IsKdf,
}
use native.Mathlib.Nat.{mod-lt}

abbrev pub sum : Bytes → ℕ
sum [] = 0
sum (b ∷ bs) = b + sum bs

abbrev pub new_code : ℕ → ℕ → RsResult (Unit {0})
new_code (suc zero) parity = done tt
new_code _ parity = failed other

abbrev pub repeat_first : ℕ → ℕ → List Bytes → RsResult (List Bytes)
repeat_first (suc zero) parity (s ∷ shards) = done (s ∷ map (λ t. s) shards)
repeat_first _ parity shards = failed other

abbrev pub first_present : List (Option Bytes) → Bytes
first_present [] = []
first_present (none ∷ shards) = first_present shards
first_present (some s ∷ shards) = s

abbrev pub toy : Primitives
toy = record {
  to_string_lossy = λ name. name;
  crc32c = λ s. sum s % 2 ^ 32;
  blake3 = λ s. replicate 32 (sum s % 256);
  aead_encrypt = λ key nonce aad msg. some (msg ++ replicate 16 0);
  aead_decrypt = λ key nonce aad c. some (take (length c - 16) c);
  rs_new = new_code;
  rs_encode = repeat_first;
  rs_reconstruct = λ d m shards. done (map (λ t. some (first_present shards)) shards);
  to_bytes_be = λ n. n ∷ [];
  from_bytes_be = sum;
  is_utf8 = λ s. true;
  argon2_params_ok = λ m t l. true;
  argon2id = λ m t l input salt. some (replicate 32 (sum input % 256));
}

pub toy-IsChecksum : IsChecksum toy
toy-IsChecksum = record { fits = λ s. mod-lt (sum s) (omega arith) }

pub toy-IsAead : IsAead toy
toy-IsAead = record {
  seals = λ key nonce aad msg h. (msg ++ replicate 16 0, refl);
  tagged = λ key nonce aad msg c h. tagged msg c h;
  opens = λ key nonce aad msg c h. opens msg c h;
}
  where
    tagged : (msg c : Bytes) → some (msg ++ replicate 16 0) ≡ some c → length c ≡ length msg + 16
    tagged msg c h =
        let same : msg ++ replicate 16 0 ≡ c = cc in
        rw (← same) (length-append msg (replicate 16 0))

    opens :
        (msg c : Bytes)
        → some (msg ++ replicate 16 0) ≡ some c
        → some (take (length c - 16) c) ≡ some msg
    opens msg c h =
        let same : msg ++ replicate 16 0 ≡ c = cc in
        rw (← same) (
          ap some (
            take-append (length (msg ++ replicate 16 0) - 16) msg (replicate 16 0)
              (omega (arith, length-append msg (replicate 16 0)))))

pub toy-IsBigEndian : IsBigEndian toy
toy-IsBigEndian = record { restores = λ n. omega arith; nonempty = λ n. omega arith }

pub toy-IsDigest : IsDigest toy
toy-IsDigest = record { sized = λ s. length-replicate 32 (sum s % 256) }

pub toy-IsKdf : IsKdf toy
toy-IsKdf = record { sized = λ m t l input salt key h. sized input key h }
  where
    sized : (input key : Bytes) → some (replicate 32 (sum input % 256)) ≡ some key → length key ≡ 32
    sized input key h =
        let same : replicate 32 (sum input % 256) ≡ key = cc in
        rw (← same) (length-replicate 32 (sum input % 256))

constant_sized :
    (size : ℕ) (s : Bytes) (shards : List Bytes)
    → length s ≡ size
    → All (λ t. length t ≡ size) (map (λ t. s) shards)
constant_sized size s [] h = tt
constant_sized size s (t ∷ shards) h = (h, constant_sized size s shards h)

length-constant : (s : Bytes) (shards : List Bytes) → length (map (λ t. s) shards) ≡ length shards
length-constant s [] = refl
length-constant s (t ∷ shards) = ap suc (length-constant s shards)

-- The present shards of a repetition are its shard.
first_present-constant :
    (s : Bytes) (present : List (Option Bytes)) (shards : List Bytes)
    → Knows present (map (λ t. s) shards)
    → 1 ≤ count_present present
    → first_present present ≡ s
first_present-constant s [] [] k h = absurd (omega arith)
first_present-constant s [] (t ∷ shards) k h = absurd k
first_present-constant s (none ∷ present) [] k h = absurd k
first_present-constant s (none ∷ present) (t ∷ shards) k h =
    first_present-constant s present shards k h
first_present-constant s (some o ∷ present) [] k h = absurd k
first_present-constant s (some o ∷ present) (t ∷ shards) k h = k.0

rebuild :
    (x s : Bytes) (present : List (Option Bytes)) (shards : List Bytes)
    → Knows present (map (λ t. s) shards)
    → x ≡ s
    → map (λ t. some x) present ≡ map some (map (λ t. s) shards)
rebuild x s [] [] k h = refl
rebuild x s [] (t ∷ shards) k h = absurd k
rebuild x s (none ∷ present) [] k h = absurd k
rebuild x s (none ∷ present) (t ∷ shards) k h =
    rw (rebuild x s present shards k h) (ap (λ a. some a ∷ map some (map (λ t. s) shards)) h)
rebuild x s (some o ∷ present) [] k h = absurd k
rebuild x s (some o ∷ present) (t ∷ shards) k h =
    rw (rebuild x s present shards k.1 h) (ap (λ a. some a ∷ map some (map (λ t. s) shards)) h)

pub toy-IsErasureCode : IsErasureCode toy
toy-IsErasureCode = record { encodes = encodes; reconstructs = reconstructs }
  where
    encodes :
        (d m size : ℕ) (shards : List Bytes)
        → new_code d m ≡ done tt
        → length shards ≡ d + m
        → 0 < size
        → All (λ s. length s ≡ size) shards
        → (out : List Bytes) × (repeat_first d m shards ≡ done out)
          × (length out ≡ d + m)
          × (take d out ≡ take d shards)
          × All (λ s. length s ≡ size) out
    encodes zero m size shards e l pos sized = absurd (cc)
    encodes (suc zero) m size [] e l pos sized = absurd (omega arith)
    encodes (suc zero) m size (s ∷ shards) e l pos (h, sized) = (
      s ∷ map (λ t. s) shards,
      refl,
      ap suc (length-constant s shards) ∙ l,
      refl,
      (h, constant_sized size s shards h),
    )
    encodes (suc (suc d)) m size shards e l pos sized = absurd (cc)

    reconstructs :
        (d m : ℕ) (shards out : List Bytes) (present : List (Option Bytes))
        → repeat_first d m shards ≡ done out
        → Knows present out
        → d ≤ count_present present
        → done (map (λ t. some (first_present present)) present) ≡ done (map some out)
    reconstructs zero m shards out present e k h = absurd (cc)
    reconstructs (suc zero) m [] out present e k h = absurd (cc)
    reconstructs (suc zero) m (s ∷ shards) out present e k h =
        let same : map (λ t. s) (s ∷ shards) ≡ out = cc in
        let known : Knows present (map (λ t. s) (s ∷ shards)) = rw same k in
        rw (← same) (
          ap done (
            rebuild (first_present present) s present (s ∷ shards) known
              (first_present-constant s present (s ∷ shards) known h)))
    reconstructs (suc (suc d)) m shards out present e k h = absurd (cc)
