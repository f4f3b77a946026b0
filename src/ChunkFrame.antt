-- ===== src/ChunkFrame.antt =====
-- domains/timelocked_file/chunk_frame.rs: the framing of one encrypted chunk.
pub mod RoundTrip
pub mod Validation
pub mod Binding
use timelocked.Common.{
  ℕ, zero, suc, ◌+◌, ◌%◌, ◌^◌, Bool, true, false, not, Option, none, some, List, [], ◌∷◌, ◌++◌, ltb,
  ◌==◌, leb, if◌then◌else◌, length, take, drop,
}
use timelocked.Common.Bytes.{Bytes, le_bytes, from_le, ascii}
use timelocked.Base.{Error, Result, ok, err, invalid_argument, invalid_format, text, fmt, reject_if}
use timelocked.Base.Read.{Parser, read_exact, read_u8, read_u32, pure, ◌>>=◌, ◌>>◌, lift}

abbrev pub aead_tag_bytes : ℕ
aead_tag_bytes = 16

pub record ChunkFrameHeader : Type 0 where
  pub index : ℕ
  pub is_last : Bool
  pub plaintext_len : ℕ
  pub ciphertext_len : ℕ
  pub nonce : Bytes

-- `u8::from(bool)`
abbrev pub bool_byte : Bool → ℕ
bool_byte true = 1
bool_byte false = 0

-- The bytes that `write_chunk_frame` appends to its writer, a `Vec`.
unfoldable pub write_chunk_frame : ChunkFrameHeader → Bytes → Result Bytes
write_chunk_frame frame ciphertext =
    if frame.ciphertext_len == length ciphertext
    then ok (
        le_bytes 8 frame.index
        ++ (bool_byte frame.is_last
            ∷ (le_bytes 4 frame.plaintext_len
                ++ (le_bytes 4 frame.ciphertext_len ++ (frame.nonce ++ ciphertext)))))
    else err (invalid_argument (text "ciphertext_len does not match ciphertext bytes"))

-- The loop of `read_exact_or_eof::<N>` on a cursor, whose `read` fills the buffer as far as the
-- bytes go: nothing is left, or too little, or enough.
unfoldable pub read_exact_or_eof : ℕ → Parser (Option Bytes)
read_exact_or_eof n [] = ok (none, [])
read_exact_or_eof n (b ∷ s) =
    if ltb (length (b ∷ s)) n
    then err (invalid_format (text "unexpected eof while reading chunk frame"))
    else ok (some (take n (b ∷ s)), drop n (b ∷ s))

-- The rest of `read_chunk_frame`, after the index.
unfoldable pub read_frame_body : Bytes → Parser (Option (ChunkFrameHeader × Bytes))
read_frame_body index_bytes = do
  let index = from_le index_bytes
  last_byte ← read_u8
  plaintext_len ← read_u32
  ciphertext_len ← read_u32
  lift (
      reject_if (ltb ciphertext_len aead_tag_bytes)
        (invalid_format (text "ciphertext length must include AEAD tag")))
  nonce ← read_exact 24
  ciphertext ← read_exact ciphertext_len
  pure (
      some (
        record {
          index = index;
          is_last = not (last_byte == 0);
          plaintext_len = plaintext_len;
          ciphertext_len = ciphertext_len;
          nonce = nonce;
        },
        ciphertext,
      ))

abbrev pub read_frame_after : Option Bytes → Parser (Option (ChunkFrameHeader × Bytes))
read_frame_after none = pure none
read_frame_after (some index_bytes) = read_frame_body index_bytes

unfoldable pub read_chunk_frame : Parser (Option (ChunkFrameHeader × Bytes))
read_chunk_frame = do maybe_index ← read_exact_or_eof 8; read_frame_after maybe_index

-- The sum of two `u32` wraps, as it does in a release build.
unfoldable pub validate_chunk_frame : ChunkFrameHeader → ℕ → ℕ → ℕ → Result (Unit {0})
validate_chunk_frame frame ciphertext_len chunk_size expected_index =
    if not (frame.index == expected_index)
    then err (
        invalid_format
          (fmt "non-contiguous chunk index at {}, got {}" (expected_index ∷ frame.index ∷ [])))
    else if ltb chunk_size frame.plaintext_len
    then err (
        invalid_format (
          fmt "chunk {} plaintext_len {} exceeds configured chunk size {}"
            (frame.index ∷ frame.plaintext_len ∷ chunk_size ∷ [])))
    else if not (frame.ciphertext_len == (frame.plaintext_len + aead_tag_bytes) % 2 ^ 32)
    then err (invalid_format (fmt "chunk {} ciphertext_len mismatch" (frame.index ∷ [])))
    else if not (ciphertext_len % 2 ^ 32 == frame.ciphertext_len)
    then err (invalid_format (fmt "chunk {} ciphertext bytes truncated" (frame.index ∷ [])))
    else ok tt

unfoldable pub build_chunk_aad : Bytes → ℕ → ℕ → Bool → Bytes
build_chunk_aad superblock_digest index plaintext_len is_last =
    ascii "TLCK-CHUNK-AD-v1"
    ++ (superblock_digest
        ++ (le_bytes 8 index ++ (le_bytes 4 plaintext_len ++ (bool_byte is_last ∷ []))))
