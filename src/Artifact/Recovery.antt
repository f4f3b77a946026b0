-- ===== src/Artifact/Recovery.antt =====
-- recovery.rs and verification.rs: from a file and its parsed artifact to the payload. The file's
-- bytes take the place of its path; progress is left out.
use timelocked.Common.{ℕ, not, [], ◌∷◌, ◌==◌}
use timelocked.Common.Bytes.{Bytes}
use timelocked.Base.{
  Result, ok, err, verification, fmt, reject_if, Polls, ensure_not_cancelled, next_poll, ◌>>=◌,
  ◌>>◌,
}
use timelocked.Primitives.{Primitives}
use timelocked.Stream.Decrypt.{ChunkDecryptionStats, decrypt_protected_stream_to_writer_with_cancel}
use timelocked.Stream.Scan.{scan_protected_stream_structural}
use timelocked.Region.Layout.{PayloadRegionLayout}
use timelocked.Region.Reconstruct.{reconstruct_payload_region}
use timelocked.Superblock.Body.{SuperblockBody, TimelockPayloadMaterial}
use timelocked.Superblock.Encode.{superblock_digest}
use timelocked.Artifact.Reader.{StoredTimelockedArtifact, read_payload_region_bytes}

pub record RecoverFileKeyRequest : Type 0 where
  pub material : TimelockPayloadMaterial
  pub iterations : ℕ
  pub modulus_bits : ℕ

pub record TimelockedFileVerification : Type 0 where
  pub chunk_count : ℕ
  pub payload_plaintext_bytes : ℕ

abbrev pub layout_of : SuperblockBody → PayloadRegionLayout
layout_of superblock = record {
  rs_data_shards = superblock.rs_data_shards;
  rs_parity_shards = superblock.rs_parity_shards;
  rs_shard_bytes = superblock.rs_shard_bytes;
}

abbrev pub recover_request : SuperblockBody → RecoverFileKeyRequest
recover_request superblock = record {
  material = superblock.timelock_material;
  iterations = superblock.iterations;
  modulus_bits = superblock.modulus_bits;
}

unfoldable pub ensure_structural_plaintext_matches_superblock :
    SuperblockBody → ℕ → Result (Unit {0})
ensure_structural_plaintext_matches_superblock superblock structural_plaintext_bytes =
    reject_if (not (structural_plaintext_bytes == superblock.payload_plaintext_bytes)) (
      verification (
        fmt "payload plaintext size mismatch, expected {}, got {}"
          (superblock.payload_plaintext_bytes ∷ structural_plaintext_bytes ∷ [])))

-- An error before the decryption leaves the writer as it was.
abbrev pub or_nothing {ℓ} :
    {A : Type ℓ} {B : Type 0} → Result A → (A → Result B × Bytes) → Result B × Bytes
or_nothing (ok a) f = f a
or_nothing (err e) f = (err e, [])

module _ (p : Primitives) (file : Bytes) (parsed : StoredTimelockedArtifact) where
  abbrev pub read_stream : Result Bytes
  read_stream = do
    payload_region ← read_payload_region_bytes file parsed
    reconstruct_payload_region p (layout_of parsed.superblock) payload_region
        parsed.superblock.protected_stream_len

  -- What is written to the writer.
  unfoldable pub recover_protected_stream_to_writer_with_cancel : Polls → Result Bytes
  recover_protected_stream_to_writer_with_cancel polls = do
    protected_stream ← read_stream
    ensure_not_cancelled polls
    ok protected_stream

  -- The result, and what is written to the writer. `recover_file_key` is the caller's callback.
  unfoldable pub recover_payload_to_writer_with_cancel :
      (RecoverFileKeyRequest → Result Bytes) → Polls → Result ChunkDecryptionStats × Bytes
  recover_payload_to_writer_with_cancel recover_file_key polls =
      or_nothing (recover_file_key (recover_request parsed.superblock)) λ key.
        or_nothing read_stream λ protected_stream.
          or_nothing (superblock_digest p parsed.superblock) λ digest.
            decrypt_protected_stream_to_writer_with_cancel p key digest
              parsed.superblock.aead_chunk_size_bytes polls protected_stream
              parsed.superblock.payload_plaintext_bytes

  unfoldable pub reconstruct_and_scan_protected_stream :
      Polls → Result (Bytes × ChunkDecryptionStats)
  reconstruct_and_scan_protected_stream polls = do
    ensure_not_cancelled polls
    protected_stream ← read_stream
    structural ←
        scan_protected_stream_structural parsed.superblock.aead_chunk_size_bytes protected_stream
    ensure_structural_plaintext_matches_superblock parsed.superblock structural.plaintext_bytes
    ok (protected_stream, structural)

  unfoldable pub verify_timelocked_file_structural_and_cancel :
      Polls → Result TimelockedFileVerification
  verify_timelocked_file_structural_and_cancel polls = do
    (protected_stream, structural) ← reconstruct_and_scan_protected_stream polls
    ok (record {
      chunk_count = structural.chunk_count;
      payload_plaintext_bytes = structural.plaintext_bytes;
    })

  unfoldable pub verify_timelocked_file_with_key_and_cancel :
      Bytes → Polls → Result TimelockedFileVerification
  verify_timelocked_file_with_key_and_cancel key_bytes polls = do
    (protected_stream, structural) ← reconstruct_and_scan_protected_stream polls
    digest ← superblock_digest p parsed.superblock
    let decryption : Result ChunkDecryptionStats × Bytes =
        decrypt_protected_stream_to_writer_with_cancel p key_bytes digest
          parsed.superblock.aead_chunk_size_bytes (next_poll polls) protected_stream
          parsed.superblock.payload_plaintext_bytes
    decrypted ← decryption.0
    ok (record {
      chunk_count = decrypted.chunk_count;
      payload_plaintext_bytes = decrypted.plaintext_bytes;
    })
