-- ===== src/Artifact/Totality.antt =====
-- Writing an artifact succeeds: nothing that `write_timelocked_artifact` compares can differ.
use timelocked.Common.{
  ℕ, ◌+◌, ◌*◌, ◌^◌, ◌≤◌, ◌<◌, ◌≡◌, refl, sym, ◌∙◌, true, false, ◌++◌, [], ◌==◌, eq→==, ltb, le→ltb,
  if◌then◌else◌, length, replicate, length-replicate, arith,
}
use mathlib.Core.Path.{subst}
use timelocked.Common.Bytes.{Bytes, le_bytes}
use timelocked.Base.{ok}
use timelocked.Primitives.{Primitives}
use timelocked.Primitives.Laws.{IsAead, IsErasureCode}
use timelocked.Stream.Encrypt.{ChunkEncryptionStats, encrypt_protected_stream_with_cancel}
use timelocked.Stream.Totality.{calm, encrypt_protected_stream-ok}
use timelocked.Stream.Sealed.{encrypt_protected_stream-Encrypted}
use timelocked.Stream.RoundTrip.{length-encrypt}
use timelocked.Region.Layout.{div_ceil, encoded_payload_region_len}
use timelocked.Region.Encode.{encode_payload_region}
use timelocked.Region.Recovery.{IsUsable, encoded_payload_region_lem}
use timelocked.Superblock.Encode.{encode_superblock_body, superblock_digest}
use timelocked.Superblock.Copies.{
  start_superblock_magic, end_superblock_magic, encode_start_superblock_copy,
  encode_end_superblock_copy,
}
use timelocked.Artifact.Notice.{file_magic, encode_notice, max_notice_bytes}
use timelocked.Artifact.Writer.{
  LockArtifactRequest, predicted_protected_stream_len, superblock_of, notice_or_default,
  write_timelocked_artifact,
}

module _ (p : Primitives) (aead : IsAead p) (code : IsErasureCode p) (nonces : ℕ → Bytes)
    (sized_nonces : (i : ℕ) → length (nonces i) ≡ 24) (bytes : Bytes)
    (request : LockArtifactRequest) (counted : request.payload_plaintext_bytes ≡ length bytes)
    (small : length bytes < 2 ^ 64) (positive : 0 < request.aead_chunk_size_bytes)
    (room : request.aead_chunk_size_bytes + 16 < 2 ^ 32)
    (usable : IsUsable p request.payload_region_params)
    (encodes : (stream_len region_len : ℕ)
      → (b : Bytes) × (encode_superblock_body p (superblock_of request stream_len region_len)
          ≡ ok b))
    (brief : length (notice_or_default request.notice) ≤ max_notice_bytes) where
  count : ℕ
  count = if length bytes == 0 then 1 else div_ceil (length bytes) request.aead_chunk_size_bytes

  abbrev stream_len : ℕ
  unfolding count
  stream_len = length bytes + count * 57

  predicted :
      predicted_protected_stream_len request.payload_plaintext_bytes request.aead_chunk_size_bytes
      ≡ ok stream_len
  unfolding predicted_protected_stream_len count stream_len
  predicted =
      let some_size : (request.aead_chunk_size_bytes == 0) ≡ false = ground arith in
      rw (counted, some_size) refl

  region_len-ok :
      (region_len : ℕ) × (encoded_payload_region_len stream_len request.payload_region_params
        ≡ ok region_len)
  region_len-ok =
      let (region, made, announced) =
        encoded_payload_region_lem p code request.payload_region_params usable
          (replicate stream_len 0) in
      (
        length region,
        subst (λ n. encoded_payload_region_len n request.payload_region_params ≡ ok (length region))
            (length-replicate stream_len 0) announced,
      )

  -- The parts of the stream, whatever digest authenticates it.
  stream-ok :
      (digest : Bytes)
      → (stream : Bytes) × (stats : ChunkEncryptionStats) × (encrypt_protected_stream_with_cancel p
            request.key_bytes digest nonces request.aead_chunk_size_bytes []
            (calm bytes)
          ≡ ok (stream, stats))
        × (stats.plaintext_bytes ≡ length bytes)
        × (length stream ≡ stream_len)
  unfolding count stream_len
  stream-ok digest =
      let (stream, stats, made, chunks) =
        encrypt_protected_stream-ok p aead request.key_bytes digest nonces
          request.aead_chunk_size_bytes positive room bytes in
      let wrote =
        encrypt_protected_stream-Encrypted p request.key_bytes digest nonces
          request.aead_chunk_size_bytes [] (calm bytes) stream stats made in
      let long =
        length-encrypt p aead request.key_bytes digest nonces sized_nonces
          request.aead_chunk_size_bytes (omega arith) [] (calm bytes) stream stats small made in
      (stream, stats, made, wrote.measured, omega (arith, long, chunks))

  region-ok :
      (stream : Bytes) (region_len : ℕ)
      → length stream ≡ stream_len
      → encoded_payload_region_len stream_len request.payload_region_params ≡ ok region_len
      → (region : Bytes) × (encode_payload_region p stream request.payload_region_params
          ≡ ok region)
        × (length region ≡ region_len)
  region-ok stream region_len long announced =
      let (region, made, same) =
        encoded_payload_region_lem p code request.payload_region_params usable stream in
      let moved : encoded_payload_region_len stream_len request.payload_region_params
          ≡ ok (length region) =
        subst (λ n. encoded_payload_region_len n request.payload_region_params ≡ ok (length region))
          long same in
      (region, made, cc)

  notice-ok : (notice : Bytes) × (encode_notice (notice_or_default request.notice) ≡ ok notice)
  unfolding encode_notice
  notice-ok =
      let text = notice_or_default request.notice in
      let short : ltb max_notice_bytes (length text) ≡ false = le→ltb _ _ brief in
      (file_magic ++ (le_bytes 2 (length text) ++ text), rw short refl)

  start_copy-ok :
      (stream_len region_len : ℕ) (b : Bytes)
      → encode_superblock_body p (superblock_of request stream_len region_len) ≡ ok b
      → (copy : Bytes) × (encode_start_superblock_copy p
            (superblock_of request stream_len region_len)
          ≡ ok copy)
  unfolding encode_start_superblock_copy
  start_copy-ok stream_len region_len b encoded = (
    start_superblock_magic ++ (le_bytes 4 (length b) ++ (le_bytes 4 (p.crc32c b) ++ b)),
    rw encoded refl,
  )

  end_copy-ok :
      (stream_len region_len : ℕ) (b : Bytes)
      → encode_superblock_body p (superblock_of request stream_len region_len) ≡ ok b
      → (copy : Bytes) × (encode_end_superblock_copy p (superblock_of request stream_len region_len)
          ≡ ok copy)
  unfolding encode_end_superblock_copy
  end_copy-ok stream_len region_len b encoded = (
    b ++ (le_bytes 4 (p.crc32c b) ++ (le_bytes 4 (length b) ++ end_superblock_magic)),
    rw encoded refl,
  )

  -- Writing an artifact without cancellation, from a source that fills every buffer and holds as
  -- many bytes as the request says (below 2 ^ 64), returns a file. The AEAD and the code keep
  -- their promises, the layout is usable, the chunk size is positive and leaves room for the tag in
  -- 32 bits, nonces have 24 bytes, the request's superblock passes its own validation, and the
  -- notice is at most 4 096 bytes long.
  pub write_timelocked_artifact-ok :
      (file : Bytes) × (write_timelocked_artifact p nonces [] (calm bytes) request ≡ ok file)
  unfolding write_timelocked_artifact superblock_digest
  write_timelocked_artifact-ok =
      let (region_len, announced) = region_len-ok in
      let (b, encoded) = encodes stream_len region_len in
      let (stream, stats, made, measured, long) = stream-ok (p.blake3 b) in
      let (region, coded, region_long) = region-ok stream region_len long announced in
      let size : (stats.plaintext_bytes == request.payload_plaintext_bytes) ≡ true =
        eq→== _ _ (measured ∙ sym counted) in
      let stream_size : (length stream == stream_len) ≡ true = eq→== _ _ long in
      let region_size : (length region == region_len) ≡ true = eq→== _ _ region_long in
      let (notice, noticed) = notice-ok in
      let (start_copy, started) = start_copy-ok stream_len region_len b encoded in
      let (end_copy, ended) = end_copy-ok stream_len region_len b encoded in
      (
        notice ++ (start_copy ++ (region ++ end_copy)),
        rw
            (
              predicted, announced, encoded, made, size, stream_size, coded, region_size, noticed,
              started, ended,
            )
            refl,
      )
