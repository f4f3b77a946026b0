-- ===== src/Artifact/Verified.antt =====
-- What was locked passes the structural verification, also where the payload region is damaged.
use timelocked.Common.{ℕ, ◌+◌, ◌^◌, ◌≤◌, ◌<◌, ◌≡◌, sym, ap, ◌∙◌, true, [], ◌++◌, ==_self, length}
use timelocked.Common.Bytes.{Bytes}
use timelocked.Base.{ok, Polls, ensure_not_cancelled, is_cancelled}
use timelocked.Primitives.{Primitives}
use timelocked.Primitives.Laws.{IsAead, IsBigEndian, IsChecksum, IsErasureCode}
use timelocked.Stream.Source.{Source}
use timelocked.Stream.Agreement.{scan-decrypt}
use timelocked.Stream.Sealed.{encrypt_protected_stream-Encrypted}
use timelocked.Region.Reconstruct.{reconstruct_payload_region}
use timelocked.Region.Recovery.{IsUsable, DamagedWithinBudget, reconstruct-encode_payload_region}
use timelocked.Superblock.Body.{max_superblock_body_len_bytes}
use timelocked.Superblock.Encode.{encode_superblock_body}
use timelocked.Superblock.RoundTrip.{IsBody}
use timelocked.Artifact.Writer.{LockArtifactRequest, superblock_of, notice_or_default}
use timelocked.Artifact.Reader.{StoredTimelockedArtifact, read_timelocked_artifact_bytes}
use timelocked.Artifact.Recovery.{
  reconstruct_and_scan_protected_stream, ensure_structural_plaintext_matches_superblock,
  verify_timelocked_file_structural_and_cancel,
}
use timelocked.Artifact.Locate.{artifact_of}
use timelocked.Artifact.RoundTrip.{read_timelocked_artifact-whole}
use timelocked.Artifact.Written.{Written}
use timelocked.Artifact.Unlocked.{locked_body, decrypt_written}

module _ (p : Primitives) (nonces : ℕ → Bytes) (sized_nonces : (i : ℕ) → length (nonces i) ≡ 24)
    (polls : Polls) (source : Source) (request : LockArtifactRequest) (file : Bytes)
    (w : Written p nonces polls source request file) where
  -- The structural verification accepts what was locked: in the file that
  -- `write_timelocked_artifact` returned, let other bytes stand in place of the payload region, whose
  -- shard records are as written or fail their checksum, with as many good ones in each stripe as
  -- there are data shards. The reader then parses the file, and
  -- `verify_timelocked_file_structural_and_cancel`, which needs no key, answers with the number of
  -- chunks of the lock and the size of the source, when nothing cancels it. The superblock is
  -- encodable (ranges, names, at most 1 MiB), the notice is valid UTF-8, the layout is accepted by
  -- the code, the file is below 2 ^ 64 bytes, nonces have 24 bytes and the libraries keep their
  -- promises.
  pub verify-write_timelocked_artifact :
      IsAead p
      → IsBigEndian p
      → IsChecksum p
      → IsErasureCode p
      → IsUsable p request.payload_region_params
      → (bytes : Bytes)
      → encode_superblock_body p (locked_body p nonces sized_nonces polls source request file w)
        ≡ ok bytes
      → length bytes ≤ max_superblock_body_len_bytes
      → IsBody p (locked_body p nonces sized_nonces polls source request file w)
      → p.is_utf8 (notice_or_default request.notice) ≡ true
      → length w.notice + (12 + length bytes) + w.region_len + (12 + length bytes) < 2 ^ 64
      → (region' : Bytes) → DamagedWithinBudget p request.payload_region_params w.region region'
      → (artifact : StoredTimelockedArtifact) × (read_timelocked_artifact_bytes p
            ((w.notice ++ w.start_copy) ++ (region' ++ w.end_copy))
          ≡ ok artifact)
        × (verify_timelocked_file_structural_and_cancel p
              ((w.notice ++ w.start_copy) ++ (region' ++ w.end_copy))
              artifact
              []
            ≡ ok (record {
              chunk_count = w.stats.chunk_count;
              payload_plaintext_bytes = length source.bytes;
            }))
  unfolding superblock_of verify_timelocked_file_structural_and_cancel
      reconstruct_and_scan_protected_stream ensure_structural_plaintext_matches_superblock
      ensure_not_cancelled is_cancelled
  verify-write_timelocked_artifact aead big sum code usable bytes encoded small writable utf8 room
        region' damaged =
      let body = locked_body p nonces sized_nonces polls source request file w in
      let (parsed, at_region) =
        read_timelocked_artifact-whole p big sum body bytes region' writable encoded small
          (damaged.0 ∙ w.region_measured) (notice_or_default request.notice) w.notice w.start_copy
          w.end_copy w.noticed utf8 w.started w.ended room in
      let rebuilt : reconstruct_payload_region p request.payload_region_params region' w.stream_len
          ≡ ok w.stream =
        rw (← w.stream_measured) (
          reconstruct-encode_payload_region p code sum request.payload_region_params usable w.stream
            w.region region' w.encoded damaged) in
      let scanned =
        scan-decrypt p request.key_bytes w.digest request.aead_chunk_size_bytes [] w.stream
          request.payload_plaintext_bytes _ _
          (decrypt_written p nonces sized_nonces polls source request file w aead writable) in
      let wrote =
        encrypt_protected_stream-Encrypted p request.key_bytes w.digest nonces
          request.aead_chunk_size_bytes polls source w.stream w.stats w.encrypted in
      let size : w.stats.plaintext_bytes ≡ length source.bytes = wrote.measured in
      (
        artifact_of (notice_or_default request.notice) body bytes (length w.notice),
        parsed,
        rw (at_region, rebuilt, scanned, w.counted, ==_self request.payload_plaintext_bytes)
            (ap
              (λ n. ok (record { chunk_count = w.stats.chunk_count; payload_plaintext_bytes = n }))
              (sym w.counted ∙ size)),
      )
