-- ===== src/Region/Reconstruct.antt =====
-- `reconstruct_payload_region`.
use timelocked.Common.{
  ℕ, zero, suc, ◌/◌, ◌%◌, not, ◌||◌, Option, none, some, List, [], ◌∷◌, ◌++◌, ltb, ◌==◌,
  if◌then◌else◌, length, take, drop,
}
use timelocked.Common.Bytes.{Bytes}
use timelocked.Base.{Result, ok, err, verification, text, ◌>>=◌, ◌>>◌}
use timelocked.Primitives.{Primitives}
use timelocked.Region.Shard.{decode_shard_record}
use timelocked.Region.Codec.{reconstruct_shards}
use timelocked.Region.Layout.{PayloadRegionLayout, shard_record_len, stripe_record_len, validate}

-- The first k blocks of n bytes.
unfoldable pub blocks : ℕ → ℕ → Bytes → List Bytes
blocks n zero xs = []
blocks n (suc k) xs = take n xs ∷ blocks n k (drop n xs)

-- `chunks_exact(n)`: all whole blocks.
abbrev pub chunks_exact : ℕ → Bytes → List Bytes
chunks_exact n xs = blocks n (length xs / n) xs

-- The data shards of a reconstructed stripe, one after the other.
unfoldable pub join_data : List (Option Bytes) → Result Bytes
join_data [] = ok []
join_data (none ∷ shards) = err (verification (text "missing reconstructed data shard"))
join_data (some shard ∷ shards) = do rest ← join_data shards; ok (shard ++ rest)

module _ (p : Primitives) where
  unfoldable pub decode_records : List Bytes → ℕ → Result (List (Option Bytes))
  decode_records [] shard_bytes = ok []
  decode_records (r ∷ records) shard_bytes = do
    shard ← decode_shard_record p r shard_bytes
    rest ← decode_records records shard_bytes
    ok (shard ∷ rest)

  module _ (layout : PayloadRegionLayout) where
    unfoldable pub reconstruct_stripe : Bytes → Result Bytes
    reconstruct_stripe stripe_bytes = do
      shards ←
          decode_records (chunks_exact (shard_record_len layout) stripe_bytes) layout.rs_shard_bytes
      whole ← reconstruct_shards p layout.rs_data_shards layout.rs_parity_shards shards
      join_data (take layout.rs_data_shards whole)

    unfoldable pub reconstruct_stripes : List Bytes → Bytes → Result Bytes
    reconstruct_stripes [] recovered = ok recovered
    reconstruct_stripes (stripe ∷ stripes) recovered = do
      shards ← reconstruct_stripe stripe
      reconstruct_stripes stripes (recovered ++ shards)

    abbrev pub truncate_to : ℕ → Bytes → Result Bytes
    truncate_to protected_stream_len recovered =
        if ltb (length recovered) protected_stream_len
        then err (verification (text "reconstructed protected stream is shorter than expected"))
        else ok (take protected_stream_len recovered)

    unfoldable pub reconstruct_payload_region : Bytes → ℕ → Result Bytes
    reconstruct_payload_region payload_region protected_stream_len =
        validate layout
        >> (if stripe_record_len layout == 0
              || not (length payload_region % stripe_record_len layout == 0)
            then err (verification (text "payload region length mismatch"))
            else reconstruct_stripes (chunks_exact (stripe_record_len layout) payload_region) []
              >>= truncate_to protected_stream_len)
