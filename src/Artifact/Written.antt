-- ===== src/Artifact/Written.antt =====
-- What a successful `write_timelocked_artifact` did, part by part.
use timelocked.Common.{ℕ, ◌≡◌, not, ◌++◌, arith, ◌==◌, length}
use timelocked.Common.Bytes.{Bytes}
use timelocked.Base.{Error, ok, Polls, reject_if, bind-inv}
use timelocked.Primitives.{Primitives}
use timelocked.Stream.Source.{Source}
use timelocked.Stream.Encrypt.{ChunkEncryptionStats, encrypt_protected_stream_with_cancel}
use timelocked.Region.Layout.{encoded_payload_region_len}
use timelocked.Region.Encode.{encode_payload_region}
use timelocked.Superblock.Encode.{superblock_digest}
use timelocked.Superblock.Copies.{encode_start_superblock_copy, encode_end_superblock_copy}
use timelocked.Artifact.Notice.{encode_notice}
use timelocked.Artifact.Writer.{
  LockArtifactRequest, predicted_protected_stream_len, superblock_of, notice_or_default,
  write_timelocked_artifact,
}

module _ (p : Primitives) (nonces : ℕ → Bytes) (polls : Polls) (source : Source)
    (request : LockArtifactRequest) where
  -- The parts of a file and how each came about.
  pub record Written (file : Bytes) : Type 0 where
    pub stream_len : ℕ
    pub region_len : ℕ
    pub digest : Bytes
    pub stream : Bytes
    pub stats : ChunkEncryptionStats
    pub region : Bytes
    pub notice : Bytes
    pub start_copy : Bytes
    pub end_copy : Bytes
    pub predicted :
        predicted_protected_stream_len request.payload_plaintext_bytes request.aead_chunk_size_bytes
        ≡ ok stream_len
    pub announced :
        encoded_payload_region_len stream_len request.payload_region_params ≡ ok region_len
    pub digested : superblock_digest p (superblock_of request stream_len region_len) ≡ ok digest
    pub encrypted :
        encrypt_protected_stream_with_cancel p request.key_bytes digest nonces
          request.aead_chunk_size_bytes polls source
        ≡ ok (stream, stats)
    pub counted : stats.plaintext_bytes ≡ request.payload_plaintext_bytes
    pub stream_measured : length stream ≡ stream_len
    pub encoded : encode_payload_region p stream request.payload_region_params ≡ ok region
    pub region_measured : length region ≡ region_len
    pub noticed : encode_notice (notice_or_default request.notice) ≡ ok notice
    pub started :
        encode_start_superblock_copy p (superblock_of request stream_len region_len) ≡ ok start_copy
    pub ended :
        encode_end_superblock_copy p (superblock_of request stream_len region_len) ≡ ok end_copy
    pub whole : file ≡ notice ++ (start_copy ++ (region ++ end_copy))

  passed : (x y : ℕ) (e : Error) (u : Unit {0}) → reject_if (not (x == y)) e ≡ ok u → x ≡ y
  passed x y e u h = ground arith

  -- A file that `write_timelocked_artifact` returns is the encoded notice, the start copy, the
  -- payload region and the end copy of one superblock, whose lengths are the predicted ones, in
  -- which the region encodes a stream of the predicted length that encrypts the source under the
  -- superblock's digest, and the source had as many bytes as the request says.
  write_timelocked_artifact-Written :
      (file : Bytes)
      → write_timelocked_artifact p nonces polls source request ≡ ok file
      → Written file
  unfolding write_timelocked_artifact
  write_timelocked_artifact-Written file h =
      bind-inv
        (predicted_protected_stream_len request.payload_plaintext_bytes
          request.aead_chunk_size_bytes)
        _ h
        λ stream_len e1 h1.
          bind-inv (encoded_payload_region_len stream_len request.payload_region_params) _ h1
            λ region_len e2 h2.
              bind-inv (superblock_digest p (superblock_of request stream_len region_len)) _ h2
                λ digest e3 h3.
                  bind-inv
                    (encrypt_protected_stream_with_cancel p request.key_bytes digest nonces
                      request.aead_chunk_size_bytes polls source)
                    _ h3
                    λ out e4 h4.
                      bind-inv
                        (reject_if (not (out.1.plaintext_bytes == request.payload_plaintext_bytes))
                          _)
                        _ h4
                        λ u5 e5 h5.
                          bind-inv (reject_if (not (length out.0 == stream_len)) _) _ h5 λ u6 e6 h6.
                            bind-inv (encode_payload_region p out.0 request.payload_region_params) _
                              h6
                              λ region e7 h7.
                                bind-inv (reject_if (not (length region == region_len)) _) _ h7
                                  λ u8 e8 h8.
                                    bind-inv (encode_notice (notice_or_default request.notice)) _ h8
                                      λ notice e9 h9.
                                        bind-inv
                                          (encode_start_superblock_copy p
                                            (superblock_of request stream_len region_len))
                                          _ h9
                                          λ start_copy e10 h10.
                                            bind-inv
                                              (encode_end_superblock_copy p
                                                (superblock_of request stream_len region_len))
                                              _ h10
                                              λ end_copy e11 h11. record {
                                                stream_len = stream_len;
                                                region_len = region_len;
                                                digest = digest;
                                                stream = out.0;
                                                stats = out.1;
                                                region = region;
                                                notice = notice;
                                                start_copy = start_copy;
                                                end_copy = end_copy;
                                                predicted = e1;
                                                announced = e2;
                                                digested = e3;
                                                encrypted = e4;
                                                counted = passed _ _ _ u5 e5;
                                                stream_measured = passed _ _ _ u6 e6;
                                                encoded = e7;
                                                region_measured = passed _ _ _ u8 e8;
                                                noticed = e9;
                                                started = e10;
                                                ended = e11;
                                                whole = cc;
                                              }
