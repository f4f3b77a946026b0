-- ===== src/Region/Codec.antt =====
-- reed_solomon.rs: the adapter around reed-solomon-erasure.
use timelocked.Common.{ℕ, ◌+◌, Option, List, ◌==◌, if◌then◌else◌, length, not}
use timelocked.Common.Bytes.{Bytes}
use timelocked.Base.{Error, Result, ok, err, invalid_format, verification, text, ◌>>◌}
use timelocked.Primitives.{Primitives, RsError, RsResult, done, failed}

abbrev pub codec_error : RsError → Error
codec_error RsError.too_many_shards = invalid_format (text "unsupported total shard count")
codec_error error = invalid_format (text "invalid Reed-Solomon parameters: {err}")

abbrev pub encode_error : RsError → Error
encode_error error = invalid_format (text "Reed-Solomon encode failed: {err}")

abbrev pub reconstruct_error : RsError → Error
reconstruct_error RsError.too_many_shards = invalid_format (text "unsupported total shard count")
reconstruct_error RsError.too_few_shards_present =
    verification (text "payload region is too damaged for Reed-Solomon recovery")
reconstruct_error RsError.other =
    invalid_format (text "Reed-Solomon reconstruction failed: {other}")

abbrev pub map_rs {ℓ} : {A : Type ℓ} → (RsError → Error) → RsResult A → Result A
map_rs f (done a) = ok a
map_rs f (failed e) = err (f e)

module _ (p : Primitives) where
  unfoldable pub codec : ℕ → ℕ → Result (Unit {0})
  codec data_shards parity_shards = map_rs codec_error (p.rs_new data_shards parity_shards)

  unfoldable pub encode_shards : ℕ → ℕ → List Bytes → Result (List Bytes)
  unfolding codec
  encode_shards data_shards parity_shards shards = do
    codec data_shards parity_shards
    map_rs encode_error (p.rs_encode data_shards parity_shards shards)

  unfoldable pub reconstruct_shards : ℕ → ℕ → List (Option Bytes) → Result (List (Option Bytes))
  unfolding codec
  reconstruct_shards data_shards parity_shards shards = do
    codec data_shards parity_shards
    if not (length shards == data_shards + parity_shards)
        then err (invalid_format (text "invalid shard count for Reed-Solomon reconstruction"))
        else map_rs reconstruct_error (p.rs_reconstruct data_shards parity_shards shards)
