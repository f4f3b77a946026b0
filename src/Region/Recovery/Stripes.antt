-- ===== src/Region/Recovery/Stripes.antt =====
-- What `encode_payload_region` writes: stripe after stripe, the records of the encoded shards.
use timelocked.Common.{
  ℕ, zero, suc, ◌+◌, ◌*◌, ◌/◌, ◌%◌, ◌≤◌, ◌<◌, ◌≡◌, refl, sym, ap, ◌∙◌, List, [], ◌∷◌, ◌++◌, ◌==◌,
  arith, length, take, drop, replicate, map, flatten, append-nil, append_assoc, length-append,
  length-replicate, take-append, All, All-append, Bool-cases, inl, inr,
}
use native.Mathlib.Nat.{mul-le-mul_right, le_trans, div-add-mod', div-mul-le_self, mod-lt}
use mathlib.Core.Path.{ap₂}
use timelocked.Common.Bytes.{Bytes}
use timelocked.Base.{ok}
use timelocked.Primitives.{Primitives, done}
use timelocked.Primitives.Laws.{IsErasureCode}
use timelocked.Region.Shard.{encode_shard_record, length-encode_shard_record}
use timelocked.Region.Codec.{encode_shards}
use timelocked.Region.Layout.{
  PayloadRegionLayout, data_bytes_per_stripe, shard_record_len, stripe_record_len, total_shards,
  validate, stripe_count, encoded_payload_region_len,
}
use timelocked.Region.Encode.{
  data_shards, stripe_of, stripe_shards, encode_stripe, encode_stripes, encode_payload_region,
}
use timelocked.Region.Padding.{
  padded, padded-append, drop-drop, stripe_data-padded, length-data_shards, data_shards-sized,
}

-- The layout is one that the code and the program accept.
pub record IsUsable (p : Primitives) (layout : PayloadRegionLayout) : Type 0 where
  pub some_data : 0 < layout.rs_data_shards
  pub some_parity : 0 < layout.rs_parity_shards
  pub some_bytes : 0 < layout.rs_shard_bytes
  pub constructs : p.rs_new layout.rs_data_shards layout.rs_parity_shards ≡ done tt

replicate-All {ℓ κ} : {A : Type ℓ} (P : A → Type κ) (n : ℕ) (a : A) → P a → All P (replicate n a)
replicate-All P zero a h = tt
replicate-All P (suc n) a h = (h, replicate-All P n a h)

-- Enough stripes for the stream, and every stripe but the first begins inside it.
pub stripe_count_bounds :
    (len b : ℕ)
    → 0 < b
    → (len ≤ stripe_count len b * b) × ((i : ℕ) → i < stripe_count len b → i * b ≤ len)
unfolding stripe_count
stripe_count_bounds len b pos = elim (Bool-cases (len == 0)) [
  | inl z ↦ rw z (ground arith, λ i h. let e : i ≡ 0 = omega arith in rw e (omega arith))
  | inr nz ↦ elim (Bool-cases (len % b == 0)) [
    | inl e ↦ rw (nz, e) (ground (arith, div-add-mod' len b), λ i h. below i (omega arith))
    | inr e ↦
        rw (nz, e)
          (ground (arith, div-add-mod' len b, mod-lt len pos), λ i h. below i (omega arith))
  ]
]
  where
    below : (i : ℕ) → i ≤ len / b → i * b ≤ len
    below i h = le_trans (mul-le-mul_right b h) (div-mul-le_self len b)

module _ (p : Primitives) (code : IsErasureCode p) (layout : PayloadRegionLayout)
    (usable : IsUsable p layout) (stream : Bytes) where
  -- What the encoder makes of one stripe.
  pub record EncodedStripe (index : ℕ) : Type 0 where
    pub shards : List Bytes
    pub by_code :
        p.rs_encode layout.rs_data_shards layout.rs_parity_shards
          (stripe_shards (stripe_of stream layout index) layout)
        ≡ done shards
    pub count : length shards ≡ total_shards layout
    pub systematic :
        take layout.rs_data_shards shards
        ≡ data_shards (stripe_of stream layout index) layout.rs_shard_bytes 0 layout.rs_data_shards
    pub sized : All (λ s. length s ≡ layout.rs_shard_bytes) shards

  pub encoded_stripe : (index : ℕ) → EncodedStripe index
  unfolding stripe_shards
  encoded_stripe index =
      let front : List Bytes =
        data_shards (stripe_of stream layout index) layout.rs_shard_bytes 0 layout.rs_data_shards in
      let zeros : List Bytes =
        replicate layout.rs_parity_shards (replicate layout.rs_shard_bytes 0) in
      let k : length front ≡ layout.rs_data_shards =
        length-data_shards layout.rs_data_shards (stripe_of stream layout index)
          layout.rs_shard_bytes 0 in
      let (out, e, n, t, s) =
        code.encodes layout.rs_data_shards layout.rs_parity_shards layout.rs_shard_bytes
          (front ++ zeros) usable.constructs
          (omega (
            arith,
            k,
            length-append front zeros,
            length-replicate layout.rs_parity_shards (replicate {A = ℕ} layout.rs_shard_bytes 0),
          ))
          usable.some_bytes
          (All-append (λ s. length s ≡ layout.rs_shard_bytes) front zeros
            (data_shards-sized layout.rs_data_shards (stripe_of stream layout index)
              layout.rs_shard_bytes 0)
            (replicate-All (λ s. length s ≡ layout.rs_shard_bytes) layout.rs_parity_shards
              (replicate layout.rs_shard_bytes 0) (length-replicate layout.rs_shard_bytes 0))) in
      record {
        shards = out;
        by_code = e;
        count = n;
        systematic = t ∙ take-append layout.rs_data_shards front zeros k;
        sized = s;
      }

  -- The records of one stripe.
  abbrev pub stripe_records : ℕ → List Bytes
  stripe_records index = map (encode_shard_record p) (encoded_stripe index).shards

  -- The bytes of n stripes from an index on.
  abbrev pub stripes : ℕ → ℕ → List Bytes
  stripes zero index = []
  stripes (suc n) index = flatten (stripe_records index) ∷ stripes n (index + 1)

  encode_stripe_lem :
      (index : ℕ) → encode_stripe p stream layout index ≡ ok (flatten (stripe_records index))
  unfolding encode_stripe encode_shards
  encode_stripe_lem index = rw (usable.constructs, (encoded_stripe index).by_code)

  encode_stripes_lem :
      (n index : ℕ) (out : Bytes)
      → encode_stripes p stream layout n index out ≡ ok (out ++ flatten (stripes n index))
  unfolding encode_stripes flatten
  encode_stripes_lem zero index out = rw append-nil
  encode_stripes_lem (suc n) index out = rw (
    encode_stripe_lem index,
    encode_stripes_lem n (index + 1) (out ++ flatten (stripe_records index)),
    append_assoc,
  )

  -- The data shards of n stripes, one after the other.
  abbrev pub stripes_data : ℕ → ℕ → List Bytes
  stripes_data zero index = []
  stripes_data (suc n) index =
      flatten (take layout.rs_data_shards (encoded_stripe index).shards)
      ∷ stripes_data n (index + 1)

  pub usable-validate : validate layout ≡ ok tt
  unfolding validate
  usable-validate = ground (arith, usable.some_data, usable.some_parity, usable.some_bytes)

  abbrev pub count_of : ℕ
  count_of = stripe_count (length stream) (data_bytes_per_stripe layout)

  pub encode_payload_region_lem :
      encode_payload_region p stream layout ≡ ok (flatten (stripes count_of 0))
  unfolding encode_payload_region
  encode_payload_region_lem = rw (usable-validate, encode_stripes_lem count_of 0 [])

  pub records-sized :
      (shards : List Bytes)
      → All (λ s. length s ≡ layout.rs_shard_bytes) shards
      → All (λ s. length s ≡ shard_record_len layout) (map (encode_shard_record p) shards)
  records-sized [] h = tt
  records-sized (s ∷ ss) (h, hs) = (rw (length-encode_shard_record p s, h), records-sized ss hs)

  pub length-map_records :
      (shards : List Bytes) → length (map (encode_shard_record p) shards) ≡ length shards
  length-map_records [] = refl
  length-map_records (s ∷ ss) = ap suc (length-map_records ss)

  -- A region of stripes has the length that was announced for it.
  pub length-stripes :
      (n index : ℕ)
      → (length (flatten (stripes n index)) ≡ n * stripe_record_len layout)
        × All (λ s. length s ≡ stripe_record_len layout) (stripes n index)
        × (length (stripes n index) ≡ n)
  unfolding flatten
  length-stripes zero index = (omega arith, tt, refl)
  length-stripes (suc n) index =
      let e = encoded_stripe index in
      let (all, each, many) = length-stripes n (index + 1) in
      let one : length (flatten (stripe_records index)) ≡ stripe_record_len layout =
        length-records e.shards e.sized ∙ ap (λ t. t * shard_record_len layout) e.count in
      (
        omega (
          arith,
          one,
          all,
          length-append (flatten (stripe_records index)) (flatten (stripes n (index + 1))),
        ),
        (one, each),
        ap suc many,
      )
    where
      length-records :
          (shards : List Bytes)
          → All (λ s. length s ≡ layout.rs_shard_bytes) shards
          → length (flatten (map (encode_shard_record p) shards))
            ≡ length shards * shard_record_len layout
      length-records [] h = omega arith
      length-records (s ∷ ss) (h, hs) = omega (
        arith,
        length-append (encode_shard_record p s) (flatten (map (encode_shard_record p) ss)),
        length-encode_shard_record p s,
        length-records ss hs,
      )

  -- `encode_payload_region` succeeds on every stream, and writes as many bytes as
  -- `encoded_payload_region_len` announced, for a layout that the code accepts and a code that
  -- keeps the size and the number of its shards.
  pub encoded_payload_region_lem :
      (region : Bytes) × (encode_payload_region p stream layout ≡ ok region)
      × (encoded_payload_region_len (length stream) layout ≡ ok (length region))
  unfolding encoded_payload_region_len
  encoded_payload_region_lem = (
    flatten (stripes count_of 0),
    encode_payload_region_lem,
    rw (usable-validate, (length-stripes count_of 0).0),
  )

  -- The data of n stripes is the stream from the first of them on, padded.
  pub stripes_data-padded :
      (n index : ℕ)
      → ((i : ℕ) → i < index + n → i * data_bytes_per_stripe layout ≤ length stream)
      → flatten (stripes_data n index)
        ≡ padded
            (n * data_bytes_per_stripe layout)
            (drop (index * data_bytes_per_stripe layout) stream)
  unfolding flatten padded
  stripes_data-padded zero index h =
      let z : 0 * data_bytes_per_stripe layout ≡ 0 = omega arith in rw z
  stripes_data-padded (suc n) index h =
      let b : ℕ = data_bytes_per_stripe layout in
      let here =
        ap (λ t. flatten t) (encoded_stripe index).systematic
        ∙ stripe_data-padded stream layout index (h index (omega arith)) in
      let ih =
        stripes_data-padded n (index + 1) (λ i l. h i (omega arith))
        ∙ ap (padded (n * b))
            (sym (drop-drop b (index * b) ((index + 1) * b) stream (omega arith))) in
      ap₂ (λ s t. s ++ t) here ih
      ∙ padded-append b (n * b) (suc n * b) (drop (index * b) stream) (omega arith)
