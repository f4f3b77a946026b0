-- ===== src/Paths/Available.antt =====
-- What output_path.rs promises: a path that is free, and the first such one in its numbering.
use timelocked.Common.{
  ℕ, zero, suc, ◌+◌, ◌-◌, ◌^◌, ◌<◌, ◌≡◌, refl, sym, ◌⊎◌, inl, Option-cases, Bool-cases, inr, Bool,
  true, false, Option, none, some, arith,
}
use timelocked.Common.Bytes.{Bytes}
use mathlib.Core.Path.{subst}
use timelocked.Base.{Error, ok, err, text, invalid_argument}
use timelocked.Paths.FilePath.{FilePath, file_stem, extension, with_file_name, map_name}
use timelocked.Paths.Output.{
  candidate_name, parse_suffix_index, find_available, find_from_stem, resolve_available_output_path,
}

-- The path with the number k behind the first one that is tried for this stem, whose stem and
-- extension went through `lossy`.
abbrev pub numbered : (Bytes → Bytes) → FilePath → Bytes → ℕ → FilePath
numbered lossy path stem k =
    let (base_stem, start_index) = parse_suffix_index (lossy stem) in
    with_file_name path
      (candidate_name base_stem (start_index + k) (map_name lossy (extension path)))

module _ (exists : FilePath → Bool) where
  -- The k-th candidate from an index on is free and those before it are taken.
  abbrev pub IsFirstFree : (ℕ → FilePath) → ℕ → Type 0
  IsFirstFree candidates k =
      (exists (candidates k) ≡ false) × ((j : ℕ) → j < k → exists (candidates j) ≡ true)

  module _ (path : FilePath) (base_stem : Bytes) (ext : Option Bytes) where
    abbrev at : ℕ → FilePath
    at index = with_file_name path (candidate_name base_stem index ext)

    abbrev IsFound : ℕ → ℕ → FilePath → Type 0
    IsFound left index found =
        (k : ℕ) × (k < left) × (found ≡ at (index + k)) × IsFirstFree (λ j. at (index + j)) k

    earlier :
        (index k : ℕ)
        → exists (at index) ≡ true
        → ((i : ℕ) → i < k → exists (at (index + 1 + i)) ≡ true)
        → (j : ℕ) → j < suc k
        → exists (at (index + j)) ≡ true
    earlier index k taken h zero lt = let e : index + 0 ≡ index = omega arith in rw e taken
    earlier index k taken h (suc i) lt =
        let e : index + suc i ≡ index + 1 + i = omega arith in rw e (h i (omega arith))

    IsFound-later :
        (left index : ℕ) (found : FilePath)
        → exists (at index) ≡ true
        → IsFound left (index + 1) found
        → IsFound (suc left) index found
    IsFound-later left index found taken (k, below, same, (free, before)) =
        let move : index + suc k ≡ index + 1 + k = omega arith in
        (suc k, omega arith, rw move same, (rw move free, earlier index k taken before))

    find_available-IsFound :
        (left index : ℕ) (found : FilePath)
        → find_available exists path base_stem ext left index ≡ ok found
        → IsFound left index found
    unfolding find_available
    find_available-IsFound zero index found h = cc
    find_available-IsFound (suc left) index found h = elim (Bool-cases (exists (at index))) [
      | inl taken ↦
          IsFound-later left index found taken
            (find_available-IsFound left (index + 1) found (ground (arith)))
      | inr free ↦
          let same : index + 0 ≡ index = omega arith in
          (0, omega arith, rw same (ground arith), (rw same free, λ j lt. absurd (omega arith)))
    ]

    find_available-taken :
        (left index : ℕ) (e : Error)
        → find_available exists path base_stem ext left index ≡ err e
        → (j : ℕ) → j < left
        → exists (at (index + j)) ≡ true
    unfolding find_available
    find_available-taken zero index e h j lt = absurd (omega arith)
    find_available-taken (suc left) index e h j lt = elim (Bool-cases (exists (at index))) [
      | inl taken ↦
          earlier index left taken (find_available-taken left (index + 1) e (ground arith)) j lt
      | inr free ↦ absurd (ground arith)
    ]

  -- Where `resolve_available_output_path` returns a path, it is free. It is the wanted path where
  -- that one is free. Otherwise it is the wanted path with another name, whose stem and extension went
  -- through `to_string_lossy`: a number from the first one on, and below 2 ^ 64, such that the candidates with a lower number are all taken.
  pub resolve_available_output_path-IsFirstFree :
      (lossy : Bytes → Bytes) (path : FilePath) (stem : Bytes) (result : FilePath)
      → file_stem path ≡ some stem
      → resolve_available_output_path exists lossy path ≡ ok result
      → (exists result ≡ false)
        × (((result ≡ path) × (exists path ≡ false))
            ⊎ ((exists path ≡ true)
                × ((k : ℕ) × ((parse_suffix_index (lossy stem)).1 + k < 2 ^ 64)
                    × (result ≡ numbered lossy path stem k)
                    × IsFirstFree (numbered lossy path stem) k)))
  unfolding resolve_available_output_path
  resolve_available_output_path-IsFirstFree lossy path stem result named h =
      elim (Bool-cases (exists path)) [
        | inl taken ↦
            let searched : find_from_stem exists lossy path (file_stem path) ≡ ok result =
              ground arith in
            let opened : find_from_stem exists lossy path (some stem) ≡ ok result =
              subst (λ o. find_from_stem exists lossy path o ≡ ok result) named searched in
            let (k, below, same, (free, before)) =
              find_available-IsFound path (parse_suffix_index (lossy stem)).0
                (map_name lossy (extension path)) (2 ^ 64 - (parse_suffix_index (lossy stem)).1)
                (parse_suffix_index (lossy stem)).1 result opened in
            (rw same free, inr (taken, (k, omega arith, same, (free, before))))
        | inr free ↦
            let same : path ≡ result = ground arith in (rw (← same) free, inl (sym same, free))
      ]

  -- `resolve_available_output_path` of a path with a name fails only where the path is taken, and
  -- every numbered candidate up to `u64::MAX` is.
  pub resolve_available_output_path-taken :
      (lossy : Bytes → Bytes) (path : FilePath) (stem : Bytes) (e : Error)
      → file_stem path ≡ some stem
      → resolve_available_output_path exists lossy path ≡ err e
      → (exists path ≡ true)
        × ((k : ℕ)
            → (parse_suffix_index (lossy stem)).1 + k < 2 ^ 64
            → exists (numbered lossy path stem k) ≡ true)
  unfolding resolve_available_output_path
  resolve_available_output_path-taken lossy path stem e named h = elim (Bool-cases (exists path)) [
    | inl taken ↦
        let searched : find_from_stem exists lossy path (file_stem path) ≡ err e = ground arith in
        let opened : find_from_stem exists lossy path (some stem) ≡ err e =
          subst (λ o. find_from_stem exists lossy path o ≡ err e) named searched in
        (
          taken,
          λ k below.
              find_available-taken path (parse_suffix_index (lossy stem)).0
                (map_name lossy (extension path)) (2 ^ 64 - (parse_suffix_index (lossy stem)).1)
                (parse_suffix_index (lossy stem)).1 e opened k (omega arith),
        )
    | inr free ↦ absurd (ground arith)
  ]

  -- Whatever the name, what is returned is free.
  pub resolve_available_output_path-free :
      (lossy : Bytes → Bytes) (path result : FilePath)
      → resolve_available_output_path exists lossy path ≡ ok result
      → exists result ≡ false
  unfolding resolve_available_output_path
  resolve_available_output_path-free lossy path result h = elim (Option-cases (file_stem path)) [
    | inl unnamed ↦ nameless unnamed
    | inr (stem, named) ↦
        (resolve_available_output_path-IsFirstFree lossy path stem result named h).0
  ]
    where
      nameless : file_stem path ≡ none → exists result ≡ false
      nameless unnamed =
          let nothing : find_from_stem exists lossy path (file_stem path)
              ≡ err (invalid_argument (text "output filename is invalid")) =
            subst
              (λ o.
                find_from_stem exists lossy path o
                ≡ err (invalid_argument (text "output filename is invalid")))
              (sym unnamed) refl in
          elim (Bool-cases (exists path)) [
            | inl taken ↦ absurd (ground arith)
            | inr free ↦ let same : path ≡ result = ground arith in rw (← same) free
          ]
