-- ===== src/Stream/Encrypt.antt =====
-- `encrypt_protected_stream_with_cancel`. Progress reports carry no result and are left out. The
-- counters are unbounded: they count bytes of a stream in memory, far below 2 ^ 64.
use timelocked.Common.{
  ℕ, zero, suc, ◌+◌, ◌%◌, ◌^◌, Bool, true, Option, none, some, [], ◌++◌, ◌==◌, if◌then◌else◌,
  length, is_empty,
}
use timelocked.Common.Bytes.{Bytes}
use timelocked.Base.{
  Result, ok, err, invalid_argument, crypto, cancelled, out_of_fuel, text, Polls, is_cancelled,
  next_poll, ◌>>=◌,
}
use timelocked.Primitives.{Primitives}
use timelocked.ChunkFrame.{ChunkFrameHeader, write_chunk_frame, build_chunk_aad}
use timelocked.Stream.Source.{Source, read}

pub record ChunkEncryptionStats : Type 0 where
  pub chunk_count : ℕ
  pub plaintext_bytes : ℕ

abbrev pub stats_of : ℕ → ℕ → ChunkEncryptionStats
stats_of chunks bytes = record { chunk_count = chunks; plaintext_bytes = bytes }

-- The key, the digest of the superblock, the nonce drawn for each chunk (`random_nonce`), and the
-- size of the read buffer.
module _ (p : Primitives) (key digest : Bytes) (nonces : ℕ → Bytes) (chunk_size : ℕ) where
  abbrev pub chunk_header : ℕ → Bytes → Bool → Bytes → ChunkFrameHeader
  chunk_header index chunk is_last ciphertext = record {
    index = index;
    is_last = is_last;
    plaintext_len = length chunk % 2 ^ 32;
    ciphertext_len = length ciphertext % 2 ^ 32;
    nonce = nonces index;
  }

  abbrev pub write_sealed : ℕ → Bytes → Bool → Option Bytes → Result Bytes
  write_sealed index chunk is_last none = err (crypto (text "chunk encryption failed"))
  write_sealed index chunk is_last (some ciphertext) =
      write_chunk_frame (chunk_header index chunk is_last ciphertext) ciphertext

  abbrev pub encrypt_chunk : ℕ → Bytes → Bool → Option Bytes
  encrypt_chunk index chunk is_last =
      p.aead_encrypt key (nonces index)
        (build_chunk_aad digest index (length chunk % 2 ^ 32) is_last) chunk

  -- Encrypt one chunk and frame it.
  unfoldable pub seal_chunk : ℕ → Bytes → Bool → Result Bytes
  seal_chunk index chunk is_last =
      write_sealed index chunk is_last (encrypt_chunk index chunk is_last)

  -- The `loop`: each round reads the chunk after the current one to know whether it is the last.
  unfoldable pub encrypt_loop :
      ℕ → Polls → Source → Bytes → ℕ → ℕ → Bytes → Result (Bytes × ChunkEncryptionStats)
  encrypt_loop zero polls source current index written out = err out_of_fuel
  encrypt_loop (suc fuel) polls source current index written out =
      if is_cancelled polls then err cancelled else do
        (next, source') ← read chunk_size source
        frame ← seal_chunk index current (is_empty next)
        let stats = stats_of (index + 1) (written + length current)
        let more =
            encrypt_loop fuel (next_poll polls) source' next (index + 1) (written + length current)
              (out ++ frame)
        if is_empty next then ok (out ++ frame, stats) else more

  -- What follows the first read: one empty terminal chunk, or the loop.
  abbrev pub encrypt_from : Polls → Bytes → Source → Result (Bytes × ChunkEncryptionStats)
  encrypt_from polls current source =
      if is_empty current
      then (do frame ← seal_chunk 0 [] true; ok (frame, stats_of 1 0))
      else encrypt_loop (suc (length source.bytes)) polls source current 0 0 []

  -- The stream that is written, and the counts.
  unfoldable pub encrypt_protected_stream_with_cancel :
      Polls → Source → Result (Bytes × ChunkEncryptionStats)
  encrypt_protected_stream_with_cancel polls source =
      if chunk_size == 0
      then err (invalid_argument (text "chunk_size must be greater than 0"))
      else if is_cancelled polls
      then err cancelled
      else do
        (current, source') ← read chunk_size source
        encrypt_from (next_poll polls) current source'
