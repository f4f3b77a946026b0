-- ===== src/Region/Recovery/Damage.antt =====
-- Reconstruction of a region in which records are damaged.
use timelocked.Common.{
  ℕ, zero, suc, ◌+◌, ◌*◌, ◌%◌, ◌≤◌, ◌<◌, ◌≡◌, refl, sym, ap, ◌∙◌, true, false, Option, none, some,
  List, [], ◌∷◌, ◌++◌, ◌==◌, ==_self, arith, length, take, drop, map, flatten, append-nil,
  append_assoc, take-append, drop-append, length-take, All, ◌⊎◌, inl, inr, ltb, le→ltb,
}
use native.Mathlib.Nat.{mul-div_cancel, mul-mod_left}
use mathlib.Core.Path.{subst}
use timelocked.Common.Bytes.{Bytes}
use timelocked.Base.{Result, ok, err}
use timelocked.Primitives.{Primitives}
use timelocked.Primitives.Laws.{IsErasureCode, IsChecksum, Knows, count_present}
use timelocked.Region.Shard.{encode_shard_record, decode_shard_record, decode-encode_shard_record}
use timelocked.Region.Codec.{reconstruct_shards}
use timelocked.Region.Layout.{
  PayloadRegionLayout, data_bytes_per_stripe, shard_record_len, stripe_record_len, total_shards,
}
use timelocked.Region.Encode.{encode_payload_region}
use timelocked.Region.Reconstruct.{
  blocks, chunks_exact, join_data, decode_records, reconstruct_stripe, reconstruct_stripes,
  reconstruct_payload_region,
}
use timelocked.Region.Padding.{padded, take-padded}
use timelocked.Region.Recovery.Stripes.{
  IsUsable, encoded_stripe, stripe_records, stripes, stripes_data, count_of,
  encode_payload_region_lem, usable-validate, length-stripes, stripes_data-padded,
  stripe_count_bounds, records-sized, length-map_records,
}

-- Blocks of one length are cut out of their concatenation again.
blocks-flatten :
    (n : ℕ) (xss : List Bytes) (k : ℕ)
    → length xss ≡ k
    → All (λ s. length s ≡ n) xss
    → blocks n k (flatten xss) ≡ xss
unfolding blocks flatten
blocks-flatten n [] zero e h = refl
blocks-flatten n [] (suc k) e h = absurd (omega arith)
blocks-flatten n (x ∷ xss) zero e h = absurd (omega arith)
blocks-flatten n (x ∷ xss) (suc k) e (hx, h) = rw (
  take-append n x (flatten xss) hx,
  drop-append n x (flatten xss) hx,
  blocks-flatten n xss k (omega arith) h,
)

abbrev valid_count : Result (Option Bytes) → ℕ
valid_count (ok (some s)) = 1
valid_count (ok none) = 0
valid_count (err e) = 0

module _ (p : Primitives) (layout : PayloadRegionLayout) where
  -- Each record is as it was written, or fails its checksum.
  abbrev pub RecordsDamaged : List Bytes → List Bytes → Type 0
  RecordsDamaged [] [] = Unit {0}
  RecordsDamaged (r ∷ rs) (r' ∷ rs') =
      ((r' ≡ r) ⊎ (decode_shard_record p r' layout.rs_shard_bytes ≡ ok none))
      × RecordsDamaged rs rs'
  RecordsDamaged _ _ = ⊥

  -- The records that pass their checksum.
  abbrev pub count_valid : List Bytes → ℕ
  count_valid [] = 0
  count_valid (r ∷ rs) =
      valid_count (decode_shard_record p r layout.rs_shard_bytes) + count_valid rs

  abbrev pub records_of : Bytes → List Bytes
  records_of stripe = chunks_exact (shard_record_len layout) stripe

  -- In each stripe at least as many records pass as there are data shards.
  abbrev pub StripesDamaged : List Bytes → List Bytes → Type 0
  StripesDamaged [] [] = Unit {0}
  StripesDamaged (s ∷ ss) (s' ∷ ss') =
      RecordsDamaged (records_of s) (records_of s')
      × (layout.rs_data_shards ≤ count_valid (records_of s'))
      × StripesDamaged ss ss'
  StripesDamaged _ _ = ⊥

  -- A region of the same length, whose records are as written or fail their checksum, and in each
  -- stripe of which at most as many records fail as there are parity shards.
  abbrev pub DamagedWithinBudget : Bytes → Bytes → Type 0
  DamagedWithinBudget region region' =
      (length region' ≡ length region)
      × StripesDamaged (chunks_exact (stripe_record_len layout) region)
          (chunks_exact (stripe_record_len layout) region')

  module _ (check : IsChecksum p) where
    -- What decoding the damaged records of encoded shards knows of the shards.
    decode_records-Knows :
        (shards rs' : List Bytes)
        → All (λ s. length s ≡ layout.rs_shard_bytes) shards
        → RecordsDamaged (map (encode_shard_record p) shards) rs'
        → (present : List (Option Bytes)) × (decode_records p rs' layout.rs_shard_bytes
            ≡ ok present)
          × Knows present shards
          × (count_present present ≡ count_valid rs')
          × (length present ≡ length shards)
    unfolding decode_records
    decode_records-Knows [] [] sized d = ([], refl, tt, refl, refl)
    decode_records-Knows [] (r' ∷ rs') sized d = absurd d
    decode_records-Knows (s ∷ ss) [] sized d = absurd d
    decode_records-Knows (s ∷ ss) (r' ∷ rs') (hs, hss) (inl same, d) =
        let (present, e, k, c, l) = decode_records-Knows ss rs' hss d in
        let here : decode_shard_record p r' layout.rs_shard_bytes ≡ ok (some s) =
          rw (same, ← hs) (decode-encode_shard_record p check s) in
        (some s ∷ present, rw (here, e), (refl, k), rw (here, c), ap suc l)
    decode_records-Knows (s ∷ ss) (r' ∷ rs') (hs, hss) (inr lost, d) =
        let (present, e, k, c, l) = decode_records-Knows ss rs' hss d in
        (none ∷ present, rw (lost, e), k, rw (lost, c) (omega arith), ap suc l)

  join_data-some :
      (n : ℕ) (shards : List Bytes)
      → join_data (take n (map some shards)) ≡ ok (flatten (take n shards))
  unfolding join_data flatten
  join_data-some zero shards = refl
  join_data-some (suc n) [] = refl
  join_data-some (suc n) (s ∷ ss) = rw (join_data-some n ss)

module _ (p : Primitives) (code : IsErasureCode p) (check : IsChecksum p)
    (layout : PayloadRegionLayout) (usable : IsUsable p layout) (stream : Bytes) where
  -- The records of an encoded stripe, cut out of its bytes.
  records_of-stripe :
      (index : ℕ)
      → records_of p layout (flatten (stripe_records p code layout usable stream index))
        ≡ stripe_records p code layout usable stream index
  records_of-stripe index =
      let e = encoded_stripe p code layout usable stream index in
      let size : length (flatten (stripe_records p code layout usable stream index))
          ≡ total_shards layout * shard_record_len layout =
        (length-stripes p code layout usable stream 1 index).1.0 in
      rw (size, mul-div_cancel (total_shards layout) (positive layout.rs_shard_bytes))
        (blocks-flatten (shard_record_len layout) (stripe_records p code layout usable stream index)
          (total_shards layout) (length-map_records p code layout usable stream e.shards ∙ e.count)
          (records-sized p code layout usable stream e.shards e.sized))
    where
      positive : (n : ℕ) → 0 < n + 4
      positive n = omega arith

  reconstruct_stripe-damaged :
      (index : ℕ) (stripe' : Bytes)
      → RecordsDamaged p layout
          (stripe_records p code layout usable stream index)
          (records_of p layout stripe')
      → layout.rs_data_shards ≤ count_valid p layout (records_of p layout stripe')
      → reconstruct_stripe p layout stripe'
        ≡ ok (
            flatten (
              take layout.rs_data_shards (encoded_stripe p code layout usable stream index).shards))
  unfolding reconstruct_stripe reconstruct_shards
  reconstruct_stripe-damaged index stripe' damaged enough =
      let e = encoded_stripe p code layout usable stream index in
      let (present, decoded, known, c, l) =
        decode_records-Knows p layout check e.shards (records_of p layout stripe') e.sized
          damaged in
      rw
        (
          decoded,
          usable.constructs,
          l,
          e.count,
          ==_self (total_shards layout),
          code.reconstructs layout.rs_data_shards layout.rs_parity_shards _ e.shards present
              e.by_code known (omega (arith, c)),
        )
        (join_data-some p layout layout.rs_data_shards e.shards)

  reconstruct_stripes-damaged :
      (n index : ℕ) (stripes' : List Bytes) (out : Bytes)
      → StripesDamaged p layout (stripes p code layout usable stream n index) stripes'
      → reconstruct_stripes p layout stripes' out
        ≡ ok (out ++ flatten (stripes_data p code layout usable stream n index))
  unfolding reconstruct_stripes flatten
  reconstruct_stripes-damaged zero index [] out d = rw append-nil
  reconstruct_stripes-damaged zero index (s' ∷ ss') out d = absurd d
  reconstruct_stripes-damaged (suc n) index [] out d = absurd d
  reconstruct_stripes-damaged (suc n) index (s' ∷ ss') out (here, enough, later) =
      let data_bytes : Bytes =
        flatten
          (take layout.rs_data_shards (encoded_stripe p code layout usable stream index).shards) in
      rw (
        reconstruct_stripe-damaged index s'
            (subst (λ t. RecordsDamaged p layout t (records_of p layout s'))
              (records_of-stripe index) here)
            enough,
        reconstruct_stripes-damaged n (index + 1) ss' (out ++ data_bytes) later,
        append_assoc,
      )

  -- The numbers of the whole region.
  region_stripes :
      chunks_exact
        (stripe_record_len layout)
        (flatten (stripes p code layout usable stream (count_of p code layout usable stream) 0))
      ≡ stripes p code layout usable stream (count_of p code layout usable stream) 0
  region_stripes =
      let n = count_of p code layout usable stream in
      let (size, each, many) = length-stripes p code layout usable stream n 0 in
      rw (size, mul-div_cancel n (positive-product usable.some_data))
        (blocks-flatten (stripe_record_len layout) (stripes p code layout usable stream n 0) n many
          each)
    where
      positive-product : 0 < layout.rs_data_shards → 0 < stripe_record_len layout
      positive-product h = grind arith

  stripes_data-stream :
      take (length stream) (
        flatten (stripes_data p code layout usable stream (count_of p code layout usable stream) 0))
      ≡ stream
  stripes_data-stream =
      let n = count_of p code layout usable stream in
      let b = data_bytes_per_stripe layout in
      let (enough, inside) =
        stripe_count_bounds (length stream) b
          (grind (arith, usable.some_data, usable.some_bytes)) in
      let z : 0 * b ≡ 0 = omega arith in
      let whole : flatten (stripes_data p code layout usable stream n 0) ≡ padded (n * b) stream =
        stripes_data-padded p code layout usable stream n 0 (λ i h. inside i (omega arith))
        ∙ ap (λ k. padded (n * b) (drop k stream)) z in
      rw whole (take-padded (n * b) stream enough)

  length-stripes_data :
      length stream
      ≤ length (
          flatten
            (stripes_data p code layout usable stream (count_of p code layout usable stream) 0))
  length-stripes_data = omega (
    arith,
    ap (λ (t : Bytes). length t) stripes_data-stream,
    length-take (length stream) (
        flatten
          (stripes_data p code layout usable stream (count_of p code layout usable stream) 0)),
  )

  -- Reconstruction returns the protected stream that was encoded from any region of the same length
  -- whose records are as they were written or fail their checksum, where in each stripe at least as
  -- many records pass as there are data shards. The layout is one that the code accepts, the
  -- erasure code and the checksum keep their promises.
  pub reconstruct-encode_payload_region :
      (region region' : Bytes)
      → encode_payload_region p stream layout ≡ ok region
      → DamagedWithinBudget p layout region region'
      → reconstruct_payload_region p layout region' (length stream) ≡ ok stream
  unfolding reconstruct_payload_region
  reconstruct-encode_payload_region region region' encoded (same_length, damaged) =
      let n = count_of p code layout usable stream in
      let written : flatten (stripes p code layout usable stream n 0) ≡ region =
        cc (encode_payload_region_lem p code layout usable stream) in
      let (size, each, many) = length-stripes p code layout usable stream n 0 in
      let size' : length region' ≡ n * stripe_record_len layout =
        same_length ∙ ap (λ (t : Bytes). length t) (sym written) ∙ size in
      let whole : (length region' % stripe_record_len layout == 0) ≡ true =
        rw (size', mul-mod_left n (stripe_record_len layout)) in
      let some_len : (stripe_record_len layout == 0) ≡ false = positive usable.some_data in
      let cut =
        subst (λ t. StripesDamaged p layout t (chunks_exact (stripe_record_len layout) region'))
          (ap (λ t. chunks_exact (stripe_record_len layout) t) (sym written) ∙ region_stripes)
          damaged in
      rw (
        usable-validate p code layout usable stream,
        some_len,
        whole,
        reconstruct_stripes-damaged n 0 (chunks_exact (stripe_record_len layout) region') [] cut,
        short,
        stripes_data-stream,
      )
    where
      positive : 0 < layout.rs_data_shards → (stripe_record_len layout == 0) ≡ false
      positive h = grind arith

      short :
          ltb
            (length (
              flatten (
                stripes_data p code layout usable stream (count_of p code layout usable stream) 0)))
            (length stream)
          ≡ false
      short = le→ltb _ _ length-stripes_data
