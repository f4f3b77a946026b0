-- ===== src/Region/Encode.antt =====
-- `encode_payload_region`.
use timelocked.Common.{
  ℕ, zero, suc, ◌+◌, ◌-◌, ◌*◌, min, List, [], ◌∷◌, ◌++◌, ltb, if◌then◌else◌, length, take, drop,
  replicate, map, flatten,
}
use timelocked.Common.Bytes.{Bytes}
use timelocked.Base.{Result, ok, ◌>>=◌, ◌>>◌}
use timelocked.Primitives.{Primitives}
use timelocked.Region.Shard.{encode_shard_record}
use timelocked.Region.Codec.{encode_shards}
use timelocked.Region.Layout.{PayloadRegionLayout, data_bytes_per_stripe, validate, stripe_count}

-- `&xs[start..end]`
abbrev pub slice : Bytes → ℕ → ℕ → Bytes
slice xs start end = take (end - start) (drop start xs)

-- One data shard of a stripe: its bytes over a buffer of zeros.
unfoldable pub data_shard : Bytes → ℕ → ℕ → Bytes
data_shard stripe_bytes shard_bytes shard_index =
    let shard_start = shard_index * shard_bytes in
    let shard_end = min (length stripe_bytes) (shard_start + shard_bytes) in
    if ltb shard_start (length stripe_bytes)
    then slice stripe_bytes shard_start shard_end
      ++ replicate (shard_bytes - (shard_end - shard_start)) 0
    else replicate shard_bytes 0

-- `for shard_index in 0..data_shards`, by the shards that are left.
unfoldable pub data_shards : Bytes → ℕ → ℕ → ℕ → List Bytes
data_shards stripe_bytes shard_bytes shard_index zero = []
data_shards stripe_bytes shard_bytes shard_index (suc n) =
    data_shard stripe_bytes shard_bytes shard_index
    ∷ data_shards stripe_bytes shard_bytes (shard_index + 1) n

-- The bytes of one stripe.
unfoldable pub stripe_of : Bytes → PayloadRegionLayout → ℕ → Bytes
stripe_of protected_stream layout stripe_index =
    let stripe_start = stripe_index * data_bytes_per_stripe layout in
    let stripe_end = min (length protected_stream) (stripe_start + data_bytes_per_stripe layout) in
    slice protected_stream stripe_start stripe_end

-- The shards that are handed to the encoder: the data, and zeros for the parity.
unfoldable pub stripe_shards : Bytes → PayloadRegionLayout → List Bytes
stripe_shards stripe_bytes layout =
    data_shards stripe_bytes layout.rs_shard_bytes 0 layout.rs_data_shards
    ++ replicate layout.rs_parity_shards (replicate layout.rs_shard_bytes 0)

module _ (p : Primitives) (protected_stream : Bytes) (layout : PayloadRegionLayout) where
  unfoldable pub encode_stripe : ℕ → Result Bytes
  encode_stripe stripe_index = do
    encoded ←
        encode_shards p layout.rs_data_shards layout.rs_parity_shards
          (stripe_shards (stripe_of protected_stream layout stripe_index) layout)
    ok (flatten (map (encode_shard_record p) encoded))

  -- `for stripe_index in 0..stripe_count`, by the stripes that are left.
  unfoldable pub encode_stripes : ℕ → ℕ → Bytes → Result Bytes
  encode_stripes zero stripe_index out = ok out
  encode_stripes (suc n) stripe_index out = do
    records ← encode_stripe stripe_index
    encode_stripes n (stripe_index + 1) (out ++ records)

  unfoldable pub encode_payload_region : Result Bytes
  encode_payload_region =
      validate layout
      >> encode_stripes (stripe_count (length protected_stream) (data_bytes_per_stripe layout)) 0 []
