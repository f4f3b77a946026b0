-- ===== src/Artifact/Bounds.antt =====
-- The offsets that the reader returns.
use timelocked.Common.{
  ℕ, ◌+◌, ◌-◌, ◌^◌, ◌≤◌, ◌<◌, ◌≡◌, Bool, true, false, arith, ltb, length, drop, length-take,
  length-drop, if◌then◌else◌,
}
use timelocked.Common.Bytes.{Bytes}
use timelocked.Base.{Error, Result, ok, err, bind-inv, reject_if}
use timelocked.Primitives.{Primitives}
use timelocked.Superblock.Copies.{range, choose_superblock_copy}
use timelocked.Artifact.Reader.{
  StoredTimelockedArtifact, Found, copy_of, locate, checked_add, start_superblock_offset_of,
  payload_region_offset_of, end_superblock_offset_of, read_timelocked_artifact_bytes,
  read_payload_region_bytes,
}

not_rejected : (a b : ℕ) (e : Error) (u : Unit {0}) → reject_if (ltb a b) e ≡ ok u → b ≤ a
not_rejected a b e u h = ground arith

past_guard {ℓ} :
    {A : Type ℓ} {a : A} (b : Bool) (e : Error) (r : Result A)
    → (if b then err e else r) ≡ ok a
    → r ≡ ok a
past_guard true e r h = cc
past_guard false e r h = h

-- The region lies inside the file and before the end superblock, and its end fits in 64 bits.
pub record IsInside (file_len : ℕ) (a : StoredTimelockedArtifact) : Type 0 where
  pub length_kept : a.file_len ≡ file_len
  pub in_file : a.payload_region_offset + a.superblock.payload_region_len ≤ file_len
  pub before_end :
      a.payload_region_offset + a.superblock.payload_region_len ≤ a.end_superblock_offset
  pub fits : a.payload_region_offset + a.superblock.payload_region_len < 2 ^ 64

locate-IsInside :
    (notice : Bytes) (file_len : ℕ) (s e : Found) (a : StoredTimelockedArtifact)
    → locate notice file_len s e ≡ ok a
    → IsInside file_len a
unfolding locate
locate-IsInside notice file_len s e a h =
    bind-inv (choose_superblock_copy (copy_of s) (copy_of e)) _ h λ chosen e1 h1.
      bind-inv (start_superblock_offset_of s e chosen) _ h1 λ start e2 h2.
        bind-inv (payload_region_offset_of s e chosen) _ h2 λ region e3 h3.
          bind-inv (end_superblock_offset_of e region chosen) _ h3 λ end e4 h4.
            bind-inv (checked_add region chosen.body.payload_region_len _) _ h4 λ finish e5 h5.
              bind-inv (reject_if (ltb file_len finish) _) _ h5 λ u6 e6 h6.
                bind-inv (reject_if (ltb end finish) _) _ h6 λ u7 e7 h7.
                  let inside : finish ≤ file_len = not_rejected file_len finish _ u6 e6 in
                  let before : finish ≤ end = not_rejected end finish _ u7 e7 in
                  let sum : finish ≡ region + chosen.body.payload_region_len = ground arith in
                  let fits : region + chosen.body.payload_region_len < 2 ^ 64 = ground arith in
                  record {
                    length_kept = ground arith;
                    in_file = ground arith;
                    before_end = ground arith;
                    fits = ground arith;
                  }

module _ (p : Primitives) where
  read-IsInside :
      (bytes : Bytes) (a : StoredTimelockedArtifact)
      → read_timelocked_artifact_bytes p bytes ≡ ok a
      → IsInside (length bytes) a
  unfolding read_timelocked_artifact_bytes
  read-IsInside bytes a h = locate-IsInside _ _ _ _ a (past_guard _ _ _ h)

  -- An artifact that the reader returns for a file has its payload region inside the file and before
  -- the end superblock, so that reading the region from the same file succeeds and returns as
  -- many bytes as the superblock says.
  pub read_payload_region-read_artifact :
      (bytes : Bytes) (a : StoredTimelockedArtifact)
      → read_timelocked_artifact_bytes p bytes ≡ ok a
      → (a.payload_region_offset + a.superblock.payload_region_len ≤ a.end_superblock_offset)
        × (region : Bytes) × (read_payload_region_bytes bytes a ≡ ok region)
        × (length region ≡ a.superblock.payload_region_len)
  unfolding read_payload_region_bytes
  read_payload_region-read_artifact bytes a h =
      let inside = read-IsInside bytes a h in
      let first = a.payload_region_offset in
      let last = a.payload_region_offset + a.superblock.payload_region_len in
      (
        inside.before_end,
        range first last bytes,
        ground (arith, inside.in_file, inside.fits),
        omega (
          arith,
          length-take (last - first) (drop first bytes),
          length-drop first bytes,
          inside.in_file,
        ),
      )
