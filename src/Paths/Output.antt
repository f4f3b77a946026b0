-- ===== src/Paths/Output.antt =====
-- output_path.rs and lock_output_path.rs. The file system is the test whether a path exists,
-- and `to_string_lossy` of the standard library is given.
use timelocked.Common.{
  ℕ, zero, suc, ◌+◌, ◌-◌, ◌^◌, Bool, true, false, not, ◌&&◌, ◌||◌, Option, none, some, [], ◌∷◌,
  ◌++◌, leb, ◌==◌, if◌then◌else◌, is_empty,
}
use timelocked.Common.Bytes.{Bytes, ascii}
use timelocked.Base.{Result, ok, err, invalid_argument, text}
use timelocked.Difficulty.Resolve.{parse_u64}
use timelocked.Paths.FilePath.{
  FilePath, file_stem, extension, with_file_name, rsplit_dot, eq_ignore_ascii_case,
  append_suffix_to_path, map_name,
}
use timelocked.Paths.Decimal.{decimal}

abbrev pub all_digits : Bytes → Bool
all_digits [] = true
all_digits (b ∷ rest) = (leb 48 b && leb b 57) && all_digits rest

abbrev pub u64_max : ℕ
u64_max = 2 ^ 64 - 1

-- The stem and the first index to try.
abbrev pub next_index : Bytes → Bytes → Option ℕ → Bytes × ℕ
next_index file_stem prefix none = (file_stem, 1)
next_index file_stem prefix (some parsed_suffix) =
    if parsed_suffix == u64_max then (prefix, u64_max) else (prefix, parsed_suffix + 1)

abbrev pub suffix_index : Bytes → Option (Bytes × Bytes) → Bytes × ℕ
suffix_index file_stem none = (file_stem, 1)
suffix_index file_stem (some (prefix, suffix)) =
    if is_empty prefix || (is_empty suffix || not (all_digits suffix))
    then (file_stem, 1)
    else next_index file_stem prefix (parse_u64 suffix)

unfoldable pub parse_suffix_index : Bytes → Bytes × ℕ
parse_suffix_index file_stem = suffix_index file_stem (rsplit_dot file_stem)

unfoldable pub candidate_name : Bytes → ℕ → Option Bytes → Bytes
candidate_name base_stem index (some ext) = base_stem ++ (46 ∷ (decimal index ++ (46 ∷ ext)))
candidate_name base_stem index none = base_stem ++ (46 ∷ decimal index)

module _ (exists : FilePath → Bool) where
  -- The loop, by the indices that are left up to `u64::MAX`.
  unfoldable pub find_available : FilePath → Bytes → Option Bytes → ℕ → ℕ → Result FilePath
  find_available path base_stem ext zero index =
      err (invalid_argument (text "unable to derive available output filename"))
  find_available path base_stem ext (suc left) index =
      let candidate = with_file_name path (candidate_name base_stem index ext) in
      let rest = find_available path base_stem ext left (index + 1) in
      if not (exists candidate) then ok candidate else rest

  -- The stem and the extension go through `to_string_lossy`.
  module _ (to_string_lossy : Bytes → Bytes) where
    abbrev pub find_from_stem : FilePath → Option Bytes → Result FilePath
    find_from_stem path none = err (invalid_argument (text "output filename is invalid"))
    find_from_stem path (some stem) =
        let (base_stem, start_index) = parse_suffix_index (to_string_lossy stem) in
        find_available path base_stem (map_name to_string_lossy (extension path))
          (2 ^ 64 - start_index) start_index

    unfoldable pub resolve_available_output_path : FilePath → Result FilePath
    resolve_available_output_path path =
        let found = find_from_stem path (file_stem path) in
        if not (exists path) then ok path else found

unfoldable pub default_timelocked_output_path : FilePath → FilePath
default_timelocked_output_path input_path = append_suffix_to_path input_path (ascii ".timelocked")

abbrev pub is_timelocked : Option Bytes → Bool
is_timelocked none = false
is_timelocked (some ext) = eq_ignore_ascii_case ext (ascii "timelocked")

unfoldable pub ensure_timelocked_extension : FilePath → FilePath
ensure_timelocked_extension path =
    if is_timelocked (extension path) then path else default_timelocked_output_path path
