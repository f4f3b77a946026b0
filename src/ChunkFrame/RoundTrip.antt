-- ===== src/ChunkFrame/RoundTrip.antt =====
-- Reading back what `write_chunk_frame` wrote, and what a frame that was read looks like.
use timelocked.Common.{
  ℕ, ◌+◌, ◌^◌, ◌≤◌, ◌<◌, ◌≡◌, refl, Bool, true, false, not, some, [], ◌∷◌, ◌++◌, arith, ◌==◌,
  le→ltb, eq→==, length, append_assoc, length-append, take-append, drop-append,
}
use timelocked.Common.Bytes.{Bytes, le_bytes, length-le_bytes, from_le-le_bytes}
use timelocked.Base.{ok}
use timelocked.Base.Read.{read_u32_lem, read_exact-append, read_u8}
use timelocked.ChunkFrame.{
  ChunkFrameHeader, bool_byte, write_chunk_frame, read_chunk_frame, read_frame_body,
  read_exact_or_eof,
}

-- The fields fit their widths, and the ciphertext carries a tag.
pub record IsWritable (h : ChunkFrameHeader) (c : Bytes) : Type 0 where
  pub index : h.index < 2 ^ 64
  pub plaintext_len : h.plaintext_len < 2 ^ 32
  pub ciphertext_len : h.ciphertext_len < 2 ^ 32
  pub tagged : 16 ≤ h.ciphertext_len
  pub nonce : length h.nonce ≡ 24
  pub ciphertext : h.ciphertext_len ≡ length c

-- The bytes of a frame.
unfoldable pub frame_bytes : ChunkFrameHeader → Bytes → Bytes
frame_bytes h c =
    le_bytes 8 h.index
    ++ (bool_byte h.is_last
        ∷ (le_bytes 4 h.plaintext_len ++ (le_bytes 4 h.ciphertext_len ++ (h.nonce ++ c))))

pub write_chunk_frame_lem :
    (h : ChunkFrameHeader) (c : Bytes)
    → h.ciphertext_len ≡ length c
    → write_chunk_frame h c ≡ ok (frame_bytes h c)
unfolding write_chunk_frame frame_bytes
write_chunk_frame_lem h c e = rw (eq→== h.ciphertext_len (length c) e)

not-bool_byte : (b : Bool) → not (bool_byte b == 0) ≡ b
not-bool_byte true = refl
not-bool_byte false = refl

read_frame_body_lem :
    (h : ChunkFrameHeader) (c rest : Bytes)
    → IsWritable h c
    → read_frame_body (le_bytes 8 h.index) (
        bool_byte h.is_last
        ∷ (le_bytes 4 h.plaintext_len ++ (le_bytes 4 h.ciphertext_len ++ (h.nonce ++ (c ++ rest)))))
      ≡ ok (some (h, c), rest)
unfolding read_frame_body read_u8
read_frame_body_lem h c rest w = rw (
  read_u32_lem h.plaintext_len _ w.plaintext_len,
  read_u32_lem h.ciphertext_len _ w.ciphertext_len,
  le→ltb h.ciphertext_len 16 w.tagged,
  read_exact-append 24 h.nonce (c ++ rest) w.nonce,
  read_exact-append h.ciphertext_len c rest (omega arith),
  from_le-le_bytes 8 h.index w.index,
  not-bool_byte h.is_last,
)

read_exact_or_eof-append :
    (n : ℕ) (xs rest : Bytes)
    → 0 < n
    → length xs ≡ n
    → read_exact_or_eof n (xs ++ rest) ≡ ok (some xs, rest)
unfolding read_exact_or_eof
read_exact_or_eof-append n [] rest p e = absurd (omega arith)
read_exact_or_eof-append n (x ∷ xs) rest p e = rw (
  le→ltb (length (x ∷ (xs ++ rest))) n (omega (arith, length-append xs rest)),
  take-append n (x ∷ xs) rest e,
  drop-append n (x ∷ xs) rest e,
)

frame_bytes-append :
    (h : ChunkFrameHeader) (c rest : Bytes)
    → frame_bytes h c ++ rest
      ≡ le_bytes 8 h.index
        ++ (bool_byte h.is_last
            ∷ (le_bytes 4 h.plaintext_len
                ++ (le_bytes 4 h.ciphertext_len ++ (h.nonce ++ (c ++ rest)))))
unfolding frame_bytes
frame_bytes-append h c rest = simp append_assoc

-- A frame that was written is read back whole, and what follows it is left.
pub read-frame_bytes :
    (h : ChunkFrameHeader) (c rest : Bytes)
    → IsWritable h c
    → read_chunk_frame (frame_bytes h c ++ rest) ≡ ok (some (h, c), rest)
unfolding read_chunk_frame
read-frame_bytes h c rest w = rw (
  frame_bytes-append h c rest,
  read_exact_or_eof-append 8 (le_bytes 8 h.index) _ (omega arith) (length-le_bytes 8 h.index),
  read_frame_body_lem h c rest w,
)

-- Reading back a frame that `write_chunk_frame` wrote returns the header and the ciphertext, and
-- leaves the bytes behind it, for a header whose fields fit their widths, with a nonce of 24
-- bytes, a ciphertext of the stated length and at least a tag.
pub read-write_chunk_frame :
    (h : ChunkFrameHeader) (c written rest : Bytes)
    → IsWritable h c
    → write_chunk_frame h c ≡ ok written
    → read_chunk_frame (written ++ rest) ≡ ok (some (h, c), rest)
read-write_chunk_frame h c written rest w e =
    let same : frame_bytes h c ≡ written = cc (write_chunk_frame_lem h c w.ciphertext) in
    rw (← same) (read-frame_bytes h c rest w)

pub length-frame_bytes :
    (h : ChunkFrameHeader) (c : Bytes)
    → IsWritable h c
    → length (frame_bytes h c) ≡ 41 + h.ciphertext_len
unfolding frame_bytes
length-frame_bytes h c w = omega (
  arith,
  length-append (le_bytes 8 h.index) (
      bool_byte h.is_last
      ∷ (le_bytes 4 h.plaintext_len ++ (le_bytes 4 h.ciphertext_len ++ (h.nonce ++ c)))),
  length-append (le_bytes 4 h.plaintext_len) (le_bytes 4 h.ciphertext_len ++ (h.nonce ++ c)),
  length-append (le_bytes 4 h.ciphertext_len) (h.nonce ++ c),
  length-append h.nonce c,
  length-le_bytes 8 h.index,
  length-le_bytes 4 h.plaintext_len,
  length-le_bytes 4 h.ciphertext_len,
  w.nonce,
  w.ciphertext,
)
