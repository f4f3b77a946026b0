-- ===== src/Tui/Browser.antt =====
-- userinterfaces/tui/state/browser.rs: the file browser. What the file system lists is given, and a
-- name is its bytes, which are UTF-8. `sort_by`, which is stable, is an insertion sort.
use timelocked.Common.{
  ℕ, suc, Bool, true, false, not, ◌&&◌, ◌||◌, Option, none, some, List, [], ◌∷◌, ltb, ◌==◌,
  if◌then◌else◌, is_empty,
}
use timelocked.Common.Bytes.{Bytes, ascii}
use timelocked.Base.{Message, Result, ok, ◌>>=◌}
use timelocked.Paths.FilePath.{
  FilePath, extension, eq_ignore_ascii_case, lowercase, is_hidden_entry_name,
}

pub data BrowserMode : Type 0 where
  file_mode directory_mode : BrowserMode

pub data BrowserFileFilter : Type 0 where
  timelocked_only all_files : BrowserFileFilter

pub data BrowserTarget : Type 0 where
  lock_file_input unlock_input unlock_output_dir inspect_input verify_input : BrowserTarget

pub record BrowserEntry : Type 0 where
  pub name : Bytes
  pub path : FilePath
  pub is_dir : Bool

pub record FileBrowserState : Type 0 where
  pub mode : BrowserMode
  pub target : BrowserTarget
  pub file_filter : BrowserFileFilter
  pub show_hidden : Bool
  pub current_dir : FilePath
  pub entries : List BrowserEntry
  pub selected : ℕ
  pub error : Option Message

-- An entry of `read_dir`: its name, its path, and whether it is a directory where its metadata can
-- be read.
pub record DirEntry : Type 0 where
  pub file_name : Bytes
  pub path : FilePath
  pub metadata : Option Bool

-- What `read_dir` lists, each entry or an error.
abbrev pub Listing : Type 0
Listing = FilePath → Result (List (Result DirEntry))

abbrev pub is_file_mode : BrowserMode → Bool
is_file_mode file_mode = true
is_file_mode directory_mode = false

abbrev pub only_timelocked : BrowserFileFilter → Bool
only_timelocked timelocked_only = true
only_timelocked all_files = false

abbrev pub wants_timelocked : BrowserTarget → Bool
wants_timelocked unlock_input = true
wants_timelocked inspect_input = true
wants_timelocked verify_input = true
wants_timelocked lock_file_input = false
wants_timelocked unlock_output_dir = false

unfoldable pub default_browser_file_filter : BrowserMode → BrowserTarget → BrowserFileFilter
default_browser_file_filter mode target =
    if not (is_file_mode mode)
    then all_files
    else if wants_timelocked target
    then timelocked_only
    else all_files

unfoldable pub browser_filter_toggle_available : BrowserMode → BrowserTarget → Bool
browser_filter_toggle_available mode target = is_file_mode mode && wants_timelocked target

abbrev pub is_timelocked_extension : Option Bytes → Bool
is_timelocked_extension none = false
is_timelocked_extension (some ext) = eq_ignore_ascii_case ext (ascii "timelocked")

unfoldable pub is_timelocked_file : FilePath → Bool
is_timelocked_file path = is_timelocked_extension (extension path)

-- The body of the loop behind the metadata.
abbrev pub keep_entry :
    BrowserMode
    → BrowserFileFilter
    → Bytes
    → FilePath
    → Bool
    → List BrowserEntry
    → List BrowserEntry
keep_entry mode file_filter name path is_dir rest =
    if not (is_file_mode mode) && not is_dir
    then rest
    else if not is_dir
        && (is_file_mode mode && (only_timelocked file_filter && not (is_timelocked_file path)))
    then rest
    else record { name = name; path = path; is_dir = is_dir } ∷ rest

abbrev pub with_metadata :
    BrowserMode
    → BrowserFileFilter
    → Bytes
    → FilePath
    → Option Bool
    → List BrowserEntry
    → List BrowserEntry
with_metadata mode file_filter name path none rest = rest
with_metadata mode file_filter name path (some is_dir) rest =
    keep_entry mode file_filter name path is_dir rest

abbrev pub next_entry :
    BrowserMode → BrowserFileFilter → Bool → DirEntry → List BrowserEntry → List BrowserEntry
next_entry mode file_filter show_hidden entry rest =
    if not show_hidden && is_hidden_entry_name entry.file_name
    then rest
    else with_metadata mode file_filter entry.file_name entry.path entry.metadata rest

unfoldable pub collect_entries :
    BrowserMode → BrowserFileFilter → Bool → List (Result DirEntry) → Result (List BrowserEntry)
collect_entries mode file_filter show_hidden [] = ok []
collect_entries mode file_filter show_hidden (entry ∷ listed) = do
  entry ← entry
  rest ← collect_entries mode file_filter show_hidden listed
  ok (next_entry mode file_filter show_hidden entry rest)

-- `Ordering::Greater` of two names is a strict order the other way round.
abbrev pub bytes_lt : Bytes → Bytes → Bool
bytes_lt xs [] = false
bytes_lt [] (y ∷ ys) = true
bytes_lt (x ∷ xs) (y ∷ ys) = ltb x y || ((x == y) && bytes_lt xs ys)

-- Whether the comparison puts `right` strictly before `left`.
abbrev pub comes_before : BrowserEntry → BrowserEntry → Bool
comes_before right left =
    let by_name = bytes_lt (lowercase right.name) (lowercase left.name) in
    if right.is_dir
    then (if left.is_dir then by_name else true)
    else (if left.is_dir then false else by_name)

abbrev pub insert_entry : BrowserEntry → List BrowserEntry → List BrowserEntry
insert_entry entry [] = entry ∷ []
insert_entry entry (first ∷ rest) =
    let later = insert_entry entry rest in
    if comes_before first entry then first ∷ later else entry ∷ first ∷ rest

unfoldable pub sort_entries : List BrowserEntry → List BrowserEntry
sort_entries [] = []
sort_entries (entry ∷ rest) = insert_entry entry (sort_entries rest)

unfoldable pub read_browser_entries :
    Listing → FilePath → BrowserMode → BrowserFileFilter → Bool → Result (List BrowserEntry)
read_browser_entries listing dir mode file_filter show_hidden = do
  listed ← listing dir
  entries ← collect_entries mode file_filter show_hidden listed
  ok (sort_entries entries)

-- `position` of the first file
abbrev pub later_file : Option ℕ → Option ℕ
later_file none = none
later_file (some n) = some (suc n)

abbrev pub first_file : List BrowserEntry → Option ℕ
first_file [] = none
first_file (entry ∷ rest) =
    let later = later_file (first_file rest) in if not entry.is_dir then some 0 else later

abbrev pub or_zero : Option ℕ → ℕ
or_zero none = 0
or_zero (some n) = n

unfoldable pub default_browser_selection_index :
    List BrowserEntry → BrowserMode → BrowserFileFilter → ℕ
default_browser_selection_index entries mode file_filter =
    if is_empty entries
    then 0
    else if is_file_mode mode && only_timelocked file_filter
    then or_zero (first_file entries)
    else 0
