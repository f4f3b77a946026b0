-- ===== src/Examples/Regions.antt =====
-- Payload regions and shard records.
use timelocked.Common.{ℕ, ◌≡◌, refl, arith, [], ◌∷◌, some, length, inl, inr, flatten}
use timelocked.Common.Bytes.{Bytes, IsBytes, le_bytes, from_le}
use timelocked.Base.{ok}
use timelocked.Region.Shard.{encode_shard_record, decode_shard_record, decode_shard_record_iff}
use timelocked.Region.Codec.{encode_shards}
use timelocked.Region.Layout.{
  PayloadRegionLayout, encoded_payload_region_len, validate, stripe_count,
}
use timelocked.Region.Encode.{
  encode_payload_region, encode_stripes, encode_stripe, stripe_shards, stripe_of, data_shards,
  data_shard,
}
use timelocked.Region.Reconstruct.{reconstruct_payload_region, blocks}
use timelocked.Region.Recovery.{
  IsUsable, DamagedWithinBudget, encoded_payload_region_lem, reconstruct-encode_payload_region,
}
use timelocked.Examples.Toy.{toy, toy-IsErasureCode, toy-IsChecksum}

abbrev layout : PayloadRegionLayout
layout = record { rs_data_shards = 1; rs_parity_shards = 1; rs_shard_bytes = 2 }

layout-IsUsable : IsUsable toy layout
layout-IsUsable = record {
  some_data = omega arith;
  some_parity = omega arith;
  some_bytes = omega arith;
  constructs = refl;
}

abbrev stream : Bytes
stream = 1 ∷ 2 ∷ 3 ∷ []

abbrev region : Bytes
region =
    3 ∷ 0 ∷ 0 ∷ 0 ∷ 1 ∷ 2 ∷ 3 ∷ 0 ∷ 0 ∷ 0 ∷ 1 ∷ 2 ∷ 3 ∷ 0 ∷ 0 ∷ 0 ∷ 3 ∷ 0 ∷ 3 ∷ 0 ∷ 0 ∷ 0 ∷ 3 ∷ 0
    ∷ []

-- The data record of the first stripe and the parity record of the second have a byte changed.
abbrev damaged_region : Bytes
damaged_region =
    3 ∷ 0 ∷ 0 ∷ 0 ∷ 9 ∷ 2 ∷ 3 ∷ 0 ∷ 0 ∷ 0 ∷ 1 ∷ 2 ∷ 3 ∷ 0 ∷ 0 ∷ 0 ∷ 3 ∷ 0 ∷ 3 ∷ 0 ∷ 0 ∷ 0 ∷ 3 ∷ 8
    ∷ []

encoded : encode_payload_region toy stream layout ≡ ok region
unfolding encode_payload_region encode_stripes encode_stripe encode_shards encode_shard_record
    validate stripe_count stripe_shards stripe_of le_bytes data_shards data_shard flatten
encoded = refl

within_budget : DamagedWithinBudget toy layout region damaged_region
unfolding decode_shard_record from_le blocks
within_budget =
    (refl, ((inr refl, (inl refl, tt)), omega arith, ((inl refl, (inr refl, tt)), omega arith, tt)))

reconstruct-encode_payload_region_example :
    reconstruct_payload_region toy layout damaged_region 3 ≡ ok stream
reconstruct-encode_payload_region_example =
    reconstruct-encode_payload_region toy toy-IsErasureCode toy-IsChecksum layout layout-IsUsable
      stream region damaged_region encoded within_budget

encoded_payload_region_lem_example :
    (region : Bytes) × (encode_payload_region toy stream layout ≡ ok region)
    × (encoded_payload_region_len 3 layout ≡ ok (length region))
encoded_payload_region_lem_example =
    encoded_payload_region_lem toy toy-IsErasureCode layout layout-IsUsable stream

abbrev shard_record : Bytes
shard_record = 3 ∷ 0 ∷ 0 ∷ 0 ∷ 1 ∷ 2 ∷ []

shard_record-IsBytes : IsBytes shard_record
shard_record-IsBytes =
    (omega arith, (omega arith, (omega arith, (omega arith, (omega arith, (omega arith, tt))))))

decode_shard_record_iff_example :
    (decode_shard_record toy shard_record 2 ≡ ok (some (1 ∷ 2 ∷ []))
      → (shard_record ≡ encode_shard_record toy (1 ∷ 2 ∷ [])) × (length {A = ℕ} (1 ∷ 2 ∷ []) ≡ 2))
    × ((shard_record ≡ encode_shard_record toy (1 ∷ 2 ∷ [])) × (length {A = ℕ} (1 ∷ 2 ∷ []) ≡ 2)
        → decode_shard_record toy shard_record 2 ≡ ok (some (1 ∷ 2 ∷ [])))
decode_shard_record_iff_example =
    decode_shard_record_iff toy toy-IsChecksum shard_record 2 (1 ∷ 2 ∷ []) shard_record-IsBytes
