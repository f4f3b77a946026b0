-- ===== src/Examples/Written.antt =====
-- Streams and files that are written without a hitch.
use timelocked.Common.{ℕ, ◌≡◌, refl, arith, [], ◌∷◌}
use timelocked.Common.Bytes.{Bytes}
use timelocked.Base.{ok}
use timelocked.Stream.Encrypt.{ChunkEncryptionStats, encrypt_protected_stream_with_cancel}
use timelocked.Stream.Totality.{calm, encrypt_protected_stream-ok}
use timelocked.Superblock.Body.{validate_body, validate_fields}
use timelocked.Superblock.Encode.{encode_superblock_body, body_bytes}
use timelocked.Artifact.Writer.{superblock_of, write_timelocked_artifact}
use timelocked.Artifact.Totality.{write_timelocked_artifact-ok}
use timelocked.Examples.Toy.{toy, toy-IsAead, toy-IsErasureCode}
use timelocked.Examples.Files.{nonces, nonces-sized, request, layout-IsUsable}

abbrev nine : Bytes
nine = 1 ∷ 2 ∷ 3 ∷ 4 ∷ 5 ∷ 6 ∷ 7 ∷ 8 ∷ 9 ∷ []

encrypt_protected_stream-ok_example :
    (stream : Bytes) × (stats : ChunkEncryptionStats) × (encrypt_protected_stream_with_cancel toy []
        [] nonces 4 []
        (calm nine)
      ≡ ok (stream, stats))
    × (stats.chunk_count ≡ 3)
encrypt_protected_stream-ok_example =
    encrypt_protected_stream-ok toy toy-IsAead [] [] nonces 4 (omega arith) (omega arith) nine

encodes :
    (stream_len region_len : ℕ)
    → (b : Bytes) × (encode_superblock_body toy (superblock_of request stream_len region_len)
        ≡ ok b)
unfolding encode_superblock_body validate_body validate_fields superblock_of
encodes stream_len region_len = (body_bytes toy (superblock_of request stream_len region_len), refl)

write_timelocked_artifact-ok_example :
    (file : Bytes) × (write_timelocked_artifact toy nonces [] (calm (1 ∷ 2 ∷ 3 ∷ [])) request
      ≡ ok file)
write_timelocked_artifact-ok_example =
    write_timelocked_artifact-ok toy toy-IsAead toy-IsErasureCode nonces nonces-sized
      (1 ∷ 2 ∷ 3 ∷ []) request refl (omega arith) (omega arith) (omega arith) layout-IsUsable
      encodes (omega arith)
