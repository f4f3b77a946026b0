-- ===== src/ChunkFrame/Binding.antt =====
-- What the associated data of a chunk binds.
use timelocked.Common.{
  ℕ, ◌^◌, ◌<◌, ◌≡◌, refl, sym, ◌∙◌, ap, Bool, true, false, ◌++◌, length, take, drop, take-append,
  drop-append, arith,
}
use timelocked.Common.Bytes.{Bytes, ascii, le_bytes, from_le, length-le_bytes, from_le-le_bytes}
use timelocked.ChunkFrame.{bool_byte, build_chunk_aad}

append-injective :
    (n : ℕ) (xs ys s t : Bytes)
    → length xs ≡ n
    → length ys ≡ n
    → xs ++ s ≡ ys ++ t
    → (xs ≡ ys) × (s ≡ t)
append-injective n xs ys s t h k same = (
  sym (take-append n xs s h) ∙ ap (λ (l : Bytes). take n l) same ∙ take-append n ys t k,
  sym (drop-append n xs s h) ∙ ap (λ (l : Bytes). drop n l) same ∙ drop-append n ys t k,
)

le_bytes-injective : (w m n : ℕ) → m < 256 ^ w → n < 256 ^ w → le_bytes w m ≡ le_bytes w n → m ≡ n
le_bytes-injective w m n h k same =
    sym (from_le-le_bytes w m h) ∙ ap from_le same ∙ from_le-le_bytes w n k

bool_byte-injective : (a b : Bool) → bool_byte a ≡ bool_byte b → a ≡ b
bool_byte-injective true true h = refl
bool_byte-injective false false h = refl
bool_byte-injective true false h = absurd (omega arith)
bool_byte-injective false true h = absurd (omega arith)

-- Two chunks with the same associated data stand in files with the same superblock digest, at the
-- same index, and have the same plaintext length and the same last mark. Digests have 32 bytes,
-- indices are below 2 ^ 64 and lengths below 2 ^ 32.
pub build_chunk_aad-injective :
    (digest digest' : Bytes) (index index' plaintext_len plaintext_len' : ℕ)
    (is_last is_last' : Bool)
    → length digest ≡ 32
    → length digest' ≡ 32
    → index < 2 ^ 64
    → index' < 2 ^ 64
    → plaintext_len < 2 ^ 32
    → plaintext_len' < 2 ^ 32
    → build_chunk_aad digest index plaintext_len is_last
      ≡ build_chunk_aad digest' index' plaintext_len' is_last'
    → (digest ≡ digest')
      × (index ≡ index')
      × (plaintext_len ≡ plaintext_len')
      × (is_last ≡ is_last')
unfolding build_chunk_aad
build_chunk_aad-injective digest digest' index index' n n' last last' d d' i i' l l' same =
    let (domain, behind_domain) =
      append-injective 16 (ascii "TLCK-CHUNK-AD-v1") (ascii "TLCK-CHUNK-AD-v1") _ _ refl refl
        same in
    let (same_digest, behind_digest) = append-injective 32 digest digest' _ _ d d' behind_domain in
    let (same_index, behind_index) =
      append-injective 8 (le_bytes 8 index) (le_bytes 8 index') _ _ (length-le_bytes 8 index)
        (length-le_bytes 8 index') behind_digest in
    let (same_len, same_last) =
      append-injective 4 (le_bytes 4 n) (le_bytes 4 n') _ _ (length-le_bytes 4 n)
        (length-le_bytes 4 n') behind_index in
    let bytes_eq : bool_byte last ≡ bool_byte last' = cc in
    (
      same_digest,
      le_bytes-injective 8 index index' (omega arith) (omega arith) same_index,
      le_bytes-injective 4 n n' (omega arith) (omega arith) same_len,
      bool_byte-injective last last' bytes_eq,
    )
