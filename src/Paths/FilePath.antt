-- ===== src/Paths/FilePath.antt =====
-- What the program uses of std::path, on Unix, and base/path.rs and base/hidden_entry.rs.
use timelocked.Common.{
  ℕ, Bool, false, ◌&&◌, ◌||◌, Option, none, some, List, [], ◌∷◌, ◌++◌, leb, ◌+◌, ◌==◌,
  if◌then◌else◌, is_empty,
}
use timelocked.Common.Bytes.{Bytes, ascii, bytes_eq}

-- The components of a path, the last one first, and its text (`as_os_str`). Two paths are the same
-- if their components are.
pub record FilePath : Type 0 where
  pub absolute : Bool
  pub names : List Bytes
  pub text : Bytes

abbrev pub joined : List Bytes → Bytes
joined [] = []
joined (name ∷ []) = name
joined (name ∷ next ∷ rest) = joined (next ∷ rest) ++ (47 ∷ name)

-- The path of these components, in the text that has no more than them.
abbrev pub path_with : Bool → List Bytes → FilePath
path_with absolute names = record {
  absolute = absolute;
  names = names;
  text = if absolute then 47 ∷ joined names else joined names;
}

-- A component that is kept: not empty, and not ".".
abbrev pub kept : Bytes → List Bytes → List Bytes
kept name names =
    if is_empty name then names else if bytes_eq name (ascii ".") then names else name ∷ names

-- The components of a text, with the one being read and those read before, both reversed.
abbrev pub components : Bytes → Bytes → List Bytes → List Bytes
components [] name names = kept name names
components (b ∷ rest) name names =
    let ended = components rest [] (kept name names) in
    let going = components rest (name ++ (b ∷ [])) names in if b == 47 then ended else going

unfoldable pub path_of : Bytes → FilePath
path_of [] = record { absolute = false; names = []; text = [] }
path_of (b ∷ rest) = record {
  absolute = b == 47;
  names = components (b ∷ rest) [] [];
  text = b ∷ rest;
}

abbrev pub name_of : List Bytes → Option Bytes
name_of [] = none
name_of (name ∷ rest) = if bytes_eq name (ascii "..") then none else some name

unfoldable pub file_name : FilePath → Option Bytes
file_name path = name_of path.names

abbrev pub parent_names : Bool → List Bytes → Option FilePath
parent_names absolute [] = none
parent_names absolute (name ∷ rest) = some (path_with absolute rest)

unfoldable pub parent : FilePath → Option FilePath
parent path = parent_names path.absolute path.names

abbrev pub replace_name : Bytes → List Bytes → Option Bytes → List Bytes
replace_name name [] old = name ∷ []
replace_name name (last ∷ rest) none = name ∷ last ∷ rest
replace_name name (last ∷ rest) (some old) = name ∷ rest

-- The new name is one component.
unfoldable pub with_file_name : FilePath → Bytes → FilePath
with_file_name path name = path_with path.absolute (replace_name name path.names (file_name path))

abbrev pub ends_with_slash : Bytes → Bool
ends_with_slash [] = false
ends_with_slash (b ∷ []) = b == 47
ends_with_slash (b ∷ next ∷ rest) = ends_with_slash (next ∷ rest)

unfoldable pub join : FilePath → FilePath → FilePath
join dir path = if path.absolute then path else record {
  absolute = dir.absolute;
  names = path.names ++ dir.names;
  text =
      if is_empty dir.text || ends_with_slash dir.text
      then dir.text ++ path.text
      else dir.text ++ (47 ∷ path.text);
}

-- A name at its last dot: what stands before the dot and behind it.
abbrev pub extend : ℕ → Option (Bytes × Bytes) → Bytes → Option (Bytes × Bytes)
extend b (some (before, behind)) rest = some (b ∷ before, behind)
extend b none rest = if b == 46 then some ([], rest) else none

-- `rsplit_once('.')`
abbrev pub rsplit_dot : Bytes → Option (Bytes × Bytes)
rsplit_dot [] = none
rsplit_dot (b ∷ rest) = extend b (rsplit_dot rest) rest

-- A dot in front makes no extension.
abbrev pub stem_of : Bytes → Option (Bytes × Bytes) → Bytes
stem_of name none = name
stem_of name (some (before, behind)) = if is_empty before then name else before

abbrev pub extension_of : Option (Bytes × Bytes) → Option Bytes
extension_of none = none
extension_of (some (before, behind)) = if is_empty before then none else some behind

abbrev pub map_name {ℓ} : {A : Type ℓ} → (Bytes → A) → Option Bytes → Option A
map_name f none = none
map_name f (some name) = some (f name)

unfoldable pub file_stem : FilePath → Option Bytes
file_stem path = map_name (λ name. stem_of name (rsplit_dot name)) (file_name path)

abbrev pub extension_in : Option Bytes → Option Bytes
extension_in none = none
extension_in (some name) = extension_of (rsplit_dot name)

unfoldable pub extension : FilePath → Option Bytes
extension path = extension_in (file_name path)

abbrev pub to_ascii_lowercase : ℕ → ℕ
to_ascii_lowercase b = if leb 65 b && leb b 90 then b + 32 else b

abbrev pub lowercase : Bytes → Bytes
lowercase [] = []
lowercase (b ∷ rest) = to_ascii_lowercase b ∷ lowercase rest

unfoldable pub eq_ignore_ascii_case : Bytes → Bytes → Bool
eq_ignore_ascii_case xs ys = bytes_eq (lowercase xs) (lowercase ys)

abbrev pub append_suffix : FilePath → Bytes → Option Bytes → FilePath
append_suffix path suffix none = path_of (path.text ++ suffix)
append_suffix path suffix (some name) = with_file_name path (name ++ suffix)

unfoldable pub append_suffix_to_path : FilePath → Bytes → FilePath
append_suffix_to_path path suffix = append_suffix path suffix (file_name path)

abbrev pub starts_with_dot : Bytes → Bool
starts_with_dot [] = false
starts_with_dot (b ∷ rest) = b == 46

unfoldable pub is_hidden_entry_name : Bytes → Bool
is_hidden_entry_name name = starts_with_dot name
