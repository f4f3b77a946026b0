-- ===== src/Primitives/Laws.antt =====
-- What the documentation of the libraries promises, one record for each library.
use timelocked.Common.{
  ℕ, ◌+◌, ◌^◌, ◌≤◌, ◌<◌, ◌≡◌, List, [], ◌∷◌, Option, none, some, length, All, take, map,
}
use timelocked.Common.Bytes.{Bytes}
use timelocked.Primitives.{Primitives, done}

-- A CRC-32C is a 32-bit number.
pub record IsChecksum (p : Primitives) : Type 0 where
  pub fits : (s : Bytes) → p.crc32c s < 2 ^ 32

-- A message of less than 4 GiB is sealed, its ciphertext carries a tag of 16 bytes, and opening a
-- ciphertext under the key, nonce and associated data of its sealing returns the message.
pub record IsAead (p : Primitives) : Type 0 where
  pub seals :
      (key nonce aad msg : Bytes)
      → length msg < 2 ^ 32
      → (c : Bytes) × (p.aead_encrypt key nonce aad msg ≡ some c)
  pub tagged :
      (key nonce aad msg c : Bytes)
      → p.aead_encrypt key nonce aad msg ≡ some c
      → length c ≡ length msg + 16
  pub opens :
      (key nonce aad msg c : Bytes)
      → p.aead_encrypt key nonce aad msg ≡ some c
      → p.aead_decrypt key nonce aad c ≡ some msg

-- The entries of the first list that are present are those of the second.
abbrev pub Knows : List (Option Bytes) → List Bytes → Type 0
Knows [] [] = Unit {0}
Knows (none ∷ os) (x ∷ xs) = Knows os xs
Knows (some o ∷ os) (x ∷ xs) = (o ≡ x) × Knows os xs
Knows _ _ = ⊥

abbrev pub count_present : List (Option Bytes) → ℕ
count_present [] = 0
count_present (none ∷ os) = count_present os
count_present (some o ∷ os) = 1 + count_present os

-- The code is systematic, and any `data` of the shards determine the others.
pub record IsErasureCode (p : Primitives) : Type 0 where
  pub encodes :
      (data_shards parity_shards size : ℕ) (shards : List Bytes)
      → p.rs_new data_shards parity_shards ≡ done tt
      → length shards ≡ data_shards + parity_shards
      → 0 < size
      → All (λ s. length s ≡ size) shards
      → (out : List Bytes) × (p.rs_encode data_shards parity_shards shards ≡ done out)
        × (length out ≡ data_shards + parity_shards)
        × (take data_shards out ≡ take data_shards shards)
        × All (λ s. length s ≡ size) out
  pub reconstructs :
      (data_shards parity_shards : ℕ) (shards out : List Bytes) (present : List (Option Bytes))
      → p.rs_encode data_shards parity_shards shards ≡ done out
      → Knows present out
      → data_shards ≤ count_present present
      → p.rs_reconstruct data_shards parity_shards present ≡ done (map some out)

-- The big-endian bytes of a number determine it, and a positive number has some.
pub record IsBigEndian (p : Primitives) : Type 0 where
  pub restores : (n : ℕ) → p.from_bytes_be (p.to_bytes_be n) ≡ n
  pub nonempty : (n : ℕ) → 0 < length (p.to_bytes_be n)

-- BLAKE3 returns 32 bytes.
pub record IsDigest (p : Primitives) : Type 0 where
  pub sized : (s : Bytes) → length (p.blake3 s) ≡ 32

-- Argon2id fills the 32 bytes that it is asked for.
pub record IsKdf (p : Primitives) : Type 0 where
  pub sized :
      (memory iterations parallelism : ℕ) (input salt key : Bytes)
      → p.argon2id memory iterations parallelism input salt ≡ some key
      → length key ≡ 32
