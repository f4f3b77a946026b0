-- ===== src/Tui/BrowserState.antt =====
-- userinterfaces/tui/state/browser.rs: the operations of the file browser's state.
use timelocked.Common.{
  ℕ, zero, suc, ◌+◌, ◌-◌, ◌%◌, Bool, false, not, Option, none, some, List, [], ◌∷◌, ◌==◌,
  if◌then◌else◌, is_empty, length,
}
use timelocked.Common.Bytes.{ascii}
use timelocked.Base.{Result, ok, err, display}
use timelocked.Paths.FilePath.{FilePath, parent, path_of}
use timelocked.Tui.Browser.{
  BrowserMode, BrowserFileFilter, timelocked_only, all_files, BrowserTarget, BrowserEntry,
  FileBrowserState, Listing, default_browser_file_filter, browser_filter_toggle_available,
  read_browser_entries, default_browser_selection_index,
}

-- `entries.get(index)`
abbrev pub get_elem? {ℓ} : {A : Type ℓ} → List A → ℕ → Option A
get_elem? [] n = none
get_elem? (x ∷ xs) zero = some x
get_elem? (x ∷ xs) (suc n) = get_elem? xs n

unfoldable pub selected_entry : FileBrowserState → Option BrowserEntry
selected_entry state = get_elem? state.entries state.selected

unfoldable pub move_up : FileBrowserState → FileBrowserState
move_up state =
    if is_empty state.entries
    then state
    else if state.selected == 0
    then record state { selected = length state.entries - 1 }
    else record state { selected = state.selected - 1 }

unfoldable pub move_down : FileBrowserState → FileBrowserState
move_down state =
    if is_empty state.entries
    then state
    else record state { selected = (state.selected + 1) % length state.entries }

abbrev pub loaded : FileBrowserState → Result (List BrowserEntry) → FileBrowserState
loaded state (ok entries) = record state {
  selected = default_browser_selection_index entries state.mode state.file_filter;
  entries = entries;
  error = none;
}
loaded state (err e) = record state { entries = []; selected = 0; error = some (display e) }

abbrev pub other_filter : BrowserFileFilter → BrowserFileFilter
other_filter timelocked_only = all_files
other_filter all_files = timelocked_only

module _ (listing : Listing) where
  unfoldable pub reload_entries : FileBrowserState → FileBrowserState
  reload_entries state = loaded state (
      read_browser_entries listing state.current_dir state.mode state.file_filter state.show_hidden)

  unfoldable pub toggle_file_filter : FileBrowserState → FileBrowserState
  toggle_file_filter state =
      if not (browser_filter_toggle_available state.mode state.target)
      then state
      else reload_entries (record state { file_filter = other_filter state.file_filter })

  unfoldable pub toggle_hidden_entries : FileBrowserState → FileBrowserState
  toggle_hidden_entries state =
      reload_entries (record state { show_hidden = not state.show_hidden })

  abbrev pub navigate_to : FileBrowserState → Option BrowserEntry → FileBrowserState
  navigate_to state none = state
  navigate_to state (some entry) =
      if entry.is_dir then reload_entries (record state { current_dir = entry.path }) else state

  unfoldable pub navigate_selected : FileBrowserState → FileBrowserState
  navigate_selected state = navigate_to state (selected_entry state)

  abbrev pub go_to_parent : FileBrowserState → Option FilePath → FileBrowserState
  go_to_parent state none = state
  go_to_parent state (some dir) = reload_entries (record state { current_dir = dir })

  unfoldable pub navigate_parent : FileBrowserState → FileBrowserState
  navigate_parent state = go_to_parent state (parent state.current_dir)

  -- The state that `new` makes in a directory.
  unfoldable pub new_in : BrowserMode → BrowserTarget → FilePath → FileBrowserState
  new_in mode target current_dir = reload_entries (record {
    mode = mode;
    target = target;
    file_filter = default_browser_file_filter mode target;
    show_hidden = false;
    current_dir = current_dir;
    entries = [];
    selected = 0;
    error = none;
  })

-- `as_os_str().is_empty()`
abbrev pub is_empty_path : FilePath → Bool
is_empty_path path = is_empty path.text

-- Where a file and a path that is neither lead to the same.
unfoldable pub resolve_browse_start_dir : (FilePath → Bool) → FilePath → Option FilePath
resolve_browse_start_dir is_dir path =
    if is_empty_path path then none else if is_dir path then some path else parent path

abbrev pub start_dir : (FilePath → Bool) → Option FilePath → Option FilePath
start_dir is_dir none = none
start_dir is_dir (some path) = resolve_browse_start_dir is_dir path

abbrev pub or_current_dir : Option FilePath → Option FilePath → FilePath
or_current_dir (some dir) current = dir
or_current_dir none (some dir) = dir
or_current_dir none none = path_of (ascii ".")

-- `std::env::current_dir` is given.
unfoldable pub new_browser :
    Listing
    → (FilePath → Bool)
    → Option FilePath
    → BrowserMode
    → BrowserTarget
    → Option FilePath
    → FileBrowserState
new_browser listing is_dir current mode target preferred_path =
    new_in listing mode target (or_current_dir (start_dir is_dir preferred_path) current)
