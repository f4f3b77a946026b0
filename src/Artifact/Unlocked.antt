-- ===== src/Artifact/Unlocked.antt =====
-- Unlocking what was locked, from a file whose payload region is damaged.
use timelocked.Common.{ℕ, ◌+◌, ◌^◌, ◌≤◌, ◌<◌, ◌≡◌, sym, ◌∙◌, true, [], ◌++◌, length}
use timelocked.Common.Bytes.{Bytes}
use timelocked.Base.{Result, ok, Polls}
use timelocked.Primitives.{Primitives}
use timelocked.Primitives.Laws.{IsAead, IsBigEndian, IsChecksum, IsErasureCode}
use timelocked.Stream.Source.{Source}
use timelocked.Stream.Decrypt.{decrypt_protected_stream_to_writer_with_cancel}
use timelocked.Stream.Sealed.{encrypt_protected_stream-Encrypted}
use timelocked.Stream.RoundTrip.{decrypt-encrypt}
use timelocked.Region.Reconstruct.{reconstruct_payload_region}
use timelocked.Region.Recovery.{IsUsable}
use timelocked.Region.Recovery.{DamagedWithinBudget, reconstruct-encode_payload_region}
use timelocked.Superblock.Body.{SuperblockBody, max_superblock_body_len_bytes}
use timelocked.Superblock.Encode.{encode_superblock_body}
use timelocked.Superblock.RoundTrip.{IsBody}
use timelocked.Artifact.Writer.{LockArtifactRequest, superblock_of, notice_or_default}
use timelocked.Artifact.Reader.{StoredTimelockedArtifact, read_timelocked_artifact_bytes}
use timelocked.Artifact.Recovery.{
  RecoverFileKeyRequest, recover_request, recover_payload_to_writer_with_cancel,
}
use timelocked.Artifact.Locate.{artifact_of}
use timelocked.Artifact.RoundTrip.{read_timelocked_artifact-whole}
use timelocked.Artifact.Written.{Written}

module _ (p : Primitives) (nonces : ℕ → Bytes) (sized_nonces : (i : ℕ) → length (nonces i) ≡ 24)
    (polls : Polls) (source : Source) (request : LockArtifactRequest) (file : Bytes)
    (w : Written p nonces polls source request file) where
  abbrev pub locked_body : SuperblockBody
  locked_body = superblock_of request w.stream_len w.region_len

  -- What the writer encrypted decrypts to the source, and says its size.
  pub decrypt_written :
      IsAead p
      → IsBody p locked_body
      → decrypt_protected_stream_to_writer_with_cancel p request.key_bytes w.digest
          request.aead_chunk_size_bytes [] w.stream request.payload_plaintext_bytes
        ≡ (
          ok (record {
            chunk_count = w.stats.chunk_count;
            plaintext_bytes = w.stats.plaintext_bytes;
          }),
          source.bytes,
        )
  unfolding superblock_of
  decrypt_written aead writable =
      let wrote =
        encrypt_protected_stream-Encrypted p request.key_bytes w.digest nonces
          request.aead_chunk_size_bytes polls source w.stream w.stats w.encrypted in
      let size : length source.bytes ≡ request.payload_plaintext_bytes =
        sym wrote.measured ∙ w.counted in
      rw (← size) (
        decrypt-encrypt p aead request.key_bytes w.digest nonces sized_nonces
          request.aead_chunk_size_bytes writable.chunk_size polls source w.stream w.stats
          (rw size writable.plaintext) w.encrypted)

  -- The same with the artifact that the reader finds, for any region that is rebuilt.
  pub recover-artifact_of :
      IsAead p
      → IsBigEndian p
      → IsChecksum p
      → (bytes : Bytes) → encode_superblock_body p locked_body ≡ ok bytes
      → length bytes ≤ max_superblock_body_len_bytes
      → IsBody p locked_body
      → p.is_utf8 (notice_or_default request.notice) ≡ true
      → length w.notice + (12 + length bytes) + w.region_len + (12 + length bytes) < 2 ^ 64
      → (region' : Bytes) → length region' ≡ w.region_len
      → reconstruct_payload_region p request.payload_region_params region' w.stream_len
        ≡ ok w.stream
      → (recover_file_key : RecoverFileKeyRequest → Result Bytes)
      → recover_file_key (recover_request locked_body) ≡ ok request.key_bytes
      → (read_timelocked_artifact_bytes p ((w.notice ++ w.start_copy) ++ (region' ++ w.end_copy))
          ≡ ok (artifact_of (notice_or_default request.notice) locked_body bytes (length w.notice)))
        × (recover_payload_to_writer_with_cancel p
              ((w.notice ++ w.start_copy) ++ (region' ++ w.end_copy))
              (artifact_of (notice_or_default request.notice) locked_body bytes (length w.notice))
              recover_file_key
              []
            ≡ (
              ok (record {
                chunk_count = w.stats.chunk_count;
                plaintext_bytes = w.stats.plaintext_bytes;
              }),
              source.bytes,
            ))
  unfolding superblock_of recover_payload_to_writer_with_cancel
  recover-artifact_of aead big sum bytes encoded small writable utf8 room region' measured rebuilt
        recover_file_key key =
      let (parsed, at_region) =
        read_timelocked_artifact-whole p big sum locked_body bytes region' writable encoded small
          measured (notice_or_default request.notice) w.notice w.start_copy w.end_copy w.noticed
          utf8 w.started w.ended room in
      (parsed, rw (key, at_region, rebuilt, w.digested) (decrypt_written aead writable))

  -- A lock is undone: in the file that `write_timelocked_artifact` returned, let other bytes
  -- stand in place of the payload region, whose shard records are as written or fail their
  -- checksum, with as many good ones in each stripe as there are data shards. The reader then parses
  -- the file, and `recover_payload_to_writer_with_cancel` with the file key and no cancellation
  -- writes the bytes of the source and returns the counts of the lock. The superblock is encodable
  -- (ranges, names, at most 1 MiB), the notice is valid UTF-8, the layout is accepted by the
  -- code, the file is below 2 ^ 64 bytes, nonces have 24 bytes and the libraries keep their
  -- promises.
  pub recover-write_timelocked_artifact :
      IsAead p
      → IsBigEndian p
      → IsChecksum p
      → IsErasureCode p
      → IsUsable p request.payload_region_params
      → (bytes : Bytes) → encode_superblock_body p locked_body ≡ ok bytes
      → length bytes ≤ max_superblock_body_len_bytes
      → IsBody p locked_body
      → p.is_utf8 (notice_or_default request.notice) ≡ true
      → length w.notice + (12 + length bytes) + w.region_len + (12 + length bytes) < 2 ^ 64
      → (region' : Bytes) → DamagedWithinBudget p request.payload_region_params w.region region'
      → (recover_file_key : RecoverFileKeyRequest → Result Bytes)
      → recover_file_key (recover_request locked_body) ≡ ok request.key_bytes
      → (artifact : StoredTimelockedArtifact) × (read_timelocked_artifact_bytes p
            ((w.notice ++ w.start_copy) ++ (region' ++ w.end_copy))
          ≡ ok artifact)
        × (recover_payload_to_writer_with_cancel p
              ((w.notice ++ w.start_copy) ++ (region' ++ w.end_copy))
              artifact
              recover_file_key
              []
            ≡ (
              ok (record {
                chunk_count = w.stats.chunk_count;
                plaintext_bytes = w.stats.plaintext_bytes;
              }),
              source.bytes,
            ))
  recover-write_timelocked_artifact aead big sum code usable bytes encoded small writable utf8 room
        region' damaged recover_file_key key =
      let rebuilt : reconstruct_payload_region p request.payload_region_params region' w.stream_len
          ≡ ok w.stream =
        rw (← w.stream_measured) (
          reconstruct-encode_payload_region p code sum request.payload_region_params usable w.stream
            w.region region' w.encoded damaged) in
      let (parsed, recovers) =
        recover-artifact_of aead big sum bytes encoded small writable utf8 room region'
          (damaged.0 ∙ w.region_measured) rebuilt recover_file_key key in
      (
        artifact_of (notice_or_default request.notice) locked_body bytes (length w.notice),
        parsed,
        recovers,
      )
