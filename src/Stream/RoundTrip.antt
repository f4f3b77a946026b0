-- ===== src/Stream/RoundTrip.antt =====
-- Decryption reads back what encryption wrote.
use timelocked.Common.{
  ℕ, zero, suc, ◌+◌, ◌*◌, ◌^◌, ◌≤◌, ◌<◌, ◌≡◌, refl, ap, Bool, true, false, some, List, [], ◌∷◌,
  ◌++◌, arith, length, length-append, append_assoc, append-nil, All, flatten, ◌⊎◌, inl, inr,
}
use timelocked.Common.Bytes.{Bytes}
use timelocked.Base.{ok, Polls, is_cancelled, next_poll}
use timelocked.Primitives.{Primitives}
use timelocked.Primitives.Laws.{IsAead}
use timelocked.ChunkFrame.{validate_chunk_frame}
use timelocked.ChunkFrame.RoundTrip.{read-frame_bytes, IsWritable, length-frame_bytes}
use timelocked.ChunkFrame.Validation.{read_chunk_frame-end}
use timelocked.Stream.Source.{Source}
use timelocked.Stream.Encrypt.{
  ChunkEncryptionStats, chunk_header, encrypt_chunk, encrypt_protected_stream_with_cancel,
}
use timelocked.Stream.Sealed.{
  IsSealed, Sealed, IsChunk, Encrypted, encrypt_protected_stream-Encrypted,
}
use timelocked.Stream.Decrypt.{
  validate_protected_stream_frame, open_chunk, next_chunk, decrypt_loop, finish_stream,
  decrypt_protected_stream_to_writer_with_cancel,
}

-- The section: an AEAD that keeps its promise, and nonces of 24 bytes.
module _ (p : Primitives) (aead : IsAead p) (key digest : Bytes) (nonces : ℕ → Bytes)
    (sized_nonces : (i : ℕ) → length (nonces i) ≡ 24) (chunk_size : ℕ)
    (chunk_size_u32 : chunk_size < 2 ^ 32) where
  sealed-IsWritable :
      (index : ℕ) (chunk : Bytes) (is_last : Bool) (c : Bytes)
      → index < 2 ^ 64
      → encrypt_chunk p key digest nonces chunk_size index chunk is_last ≡ some c
      → length c < 2 ^ 32
      → IsWritable (chunk_header p key digest nonces chunk_size index chunk is_last c) c
  sealed-IsWritable index chunk is_last c hi e fits =
      let tag = aead.tagged key (nonces index) _ chunk c e in
      record {
        index = hi;
        plaintext_len = omega arith;
        ciphertext_len = omega arith;
        tagged = omega (arith, tag);
        nonce = sized_nonces index;
        ciphertext = omega arith;
      }

  open_chunk-sealed :
      (index : ℕ) (chunk : Bytes) (is_last : Bool) (c : Bytes)
      → length chunk ≤ chunk_size
      → (is_last ≡ true) ⊎ (0 < length chunk)
      → encrypt_chunk p key digest nonces chunk_size index chunk is_last ≡ some c
      → length c < 2 ^ 32
      → open_chunk p key digest chunk_size
          (chunk_header p key digest nonces chunk_size index chunk is_last c)
          c
          index
        ≡ ok chunk
  unfolding open_chunk validate_protected_stream_frame validate_chunk_frame
  open_chunk-sealed index chunk is_last c room full e fits =
      ground (
        arith,
        aead.tagged key (nonces index) _ chunk c e,
        aead.opens key (nonces index) _ chunk c e,
      )

  next_chunk-IsSealed :
      (index : ℕ) (chunk : Bytes) (is_last : Bool) (s rest : Bytes)
      → index < 2 ^ 64
      → length chunk ≤ chunk_size
      → (is_last ≡ true) ⊎ (0 < length chunk)
      → IsSealed p key digest nonces chunk_size index chunk is_last s
      → next_chunk p key digest chunk_size index (s ++ rest) ≡ ok (some (is_last, chunk), rest)
  unfolding next_chunk
  next_chunk-IsSealed index chunk is_last s rest hi room full (c, e, fits, bytes) = rw (
    bytes,
    read-frame_bytes _ c rest (sealed-IsWritable index chunk is_last c hi e fits),
    open_chunk-sealed index chunk is_last c room full e fits,
  )

  decrypt_loop-Sealed :
      (chunks : List Bytes) (fuel : ℕ) (chunk : Bytes) (index written : ℕ) (out s rest : Bytes)
      → length chunks < fuel
      → index + length chunks < 2 ^ 64
      → length chunk ≤ chunk_size
      → (chunks ≡ []) ⊎ (0 < length chunk)
      → All (IsChunk p key digest nonces chunk_size) chunks
      → Sealed p key digest nonces chunk_size index (chunk ∷ chunks) s
      → decrypt_loop p key digest chunk_size fuel [] (s ++ rest) index written out ≡ (
        ok (record {
          expected_index = index + length (chunk ∷ chunks);
          plaintext_written = written + length (flatten (chunk ∷ chunks));
          saw_last = true;
          rest = rest;
        }),
        out ++ flatten (chunk ∷ chunks),
      )
  unfolding decrypt_loop is_cancelled next_poll flatten
  decrypt_loop-Sealed chunks zero chunk index written out s rest hf hi room full sized sealed =
      absurd (omega arith)
  decrypt_loop-Sealed [] (suc fuel) chunk index written out s rest hf hi room full sized sealed =
      ground (
        arith,
        append-nil chunk,
        next_chunk-IsSealed index chunk true s rest (omega arith) room (inl refl) sealed,
      )
  decrypt_loop-Sealed (d ∷ ds) (suc fuel) chunk index written out s rest hf hi room full sized
        (front, back, split, here, later) =
      let next : next_chunk p key digest chunk_size index (s ++ rest)
          ≡ ok (some (false, chunk), back ++ rest) =
        rw (split, append_assoc front back rest)
          (next_chunk-IsSealed index chunk false front (back ++ rest) (omega arith) room
            (ground arith) here) in
      ground (
        arith,
        next,
        append_assoc out chunk (flatten (d ∷ ds)),
        length-append chunk (flatten (d ∷ ds)),
        decrypt_loop-Sealed ds fuel d (index + 1) (written + length chunk) (out ++ chunk) back rest
            (omega arith) (omega arith) sized.0.1 (inr sized.0.0) sized.1 later,
      )

  length-IsSealed :
      (index : ℕ) (chunk : Bytes) (is_last : Bool) (s : Bytes)
      → index < 2 ^ 64
      → IsSealed p key digest nonces chunk_size index chunk is_last s
      → length s ≡ length chunk + 57
  length-IsSealed index chunk is_last s hi (c, e, fits, bytes) = omega (
    arith,
    ap (λ (t : Bytes). length t) bytes,
    length-frame_bytes _ c (sealed-IsWritable index chunk is_last c hi e fits),
    aead.tagged key (nonces index) _ chunk c e,
  )

  -- The frames take 57 bytes for each chunk, and the plaintext.
  pub length-Sealed :
      (chunks : List Bytes) (chunk : Bytes) (index : ℕ) (s : Bytes)
      → index + length chunks < 2 ^ 64
      → Sealed p key digest nonces chunk_size index (chunk ∷ chunks) s
      → length s ≡ length (flatten (chunk ∷ chunks)) + 57 * length (chunk ∷ chunks)
  unfolding flatten
  length-Sealed [] chunk index s hi sealed =
      ground (arith, append-nil chunk, length-IsSealed index chunk true s (omega arith) sealed)
  length-Sealed (d ∷ ds) chunk index s hi (front, back, split, here, later) = omega (
    arith,
    ap (λ (t : Bytes). length t) split,
    length-append front back,
    length-append chunk (flatten (d ∷ ds)),
    length-IsSealed index chunk false front (omega arith) here,
    length-Sealed ds d (index + 1) back (omega arith) later,
  )

  length-le-flatten :
      (chunks : List Bytes)
      → All (IsChunk p key digest nonces chunk_size) chunks
      → length chunks ≤ length (flatten chunks)
  unfolding flatten
  length-le-flatten [] h = omega arith
  length-le-flatten (c ∷ cs) h =
      omega (arith, length-append c (flatten cs), length-le-flatten cs h.1)

  module _ (polls : Polls) (source : Source) (stream : Bytes) (stats : ChunkEncryptionStats)
      (small : length source.bytes < 2 ^ 64)
      (encrypted : encrypt_protected_stream_with_cancel p key digest nonces chunk_size polls source
        ≡ ok (stream, stats)) where
    wrote : Encrypted p key digest nonces chunk_size source stream stats
    wrote =
        encrypt_protected_stream-Encrypted p key digest nonces chunk_size polls source stream stats
          encrypted

    few : 0 + length wrote.chunks < 2 ^ 64
    unfolding flatten
    few = omega (
      arith,
      ap (λ (t : Bytes). length t) wrote.whole,
      length-append wrote.first (flatten wrote.chunks),
      length-le-flatten wrote.chunks wrote.sized,
    )

    -- The length of the stream is that of the plaintext and 57 bytes for each chunk.
    pub length-encrypt : length stream ≡ length source.bytes + 57 * stats.chunk_count
    length-encrypt = omega (
      arith,
      length-Sealed wrote.chunks wrote.first 0 stream few wrote.sealed,
      ap (λ (t : Bytes). length t) wrote.whole,
      wrote.counted,
    )

    -- Decrypting, under the same key and digest and with no cancellation, what an encryption wrote
    -- returns the encryption's counts and writes the bytes of its source, whatever amounts the
    -- source returned at each read. The AEAD opens what it sealed, nonces have 24 bytes, the chunk
    -- size is a `u32` and the source holds less than 2 ^ 64 bytes.
    pub decrypt-encrypt :
        decrypt_protected_stream_to_writer_with_cancel p key digest chunk_size [] stream
          (length source.bytes)
        ≡ (
          ok (record { chunk_count = stats.chunk_count; plaintext_bytes = stats.plaintext_bytes }),
          source.bytes,
        )
    unfolding decrypt_protected_stream_to_writer_with_cancel is_cancelled next_poll finish_stream
    decrypt-encrypt = ground (
      arith,
      append-nil stream,
      wrote.whole,
      wrote.counted,
      wrote.measured,
      read_chunk_frame-end,
      length-encrypt,
      decrypt_loop-Sealed wrote.chunks (suc (length stream)) wrote.first 0 0 [] stream []
          (omega (arith, length-encrypt, wrote.counted)) few wrote.first_room wrote.first_last
          wrote.sized wrote.sealed,
    )
