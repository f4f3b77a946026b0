-- ===== src/Examples/Fields.antt =====
-- Text fields and browsers on small inputs.
use timelocked.Common.{◌≡◌, true, false, none, some, [], ◌∷◌, List}
use timelocked.Common.Bytes.{ascii}
use timelocked.Base.{ok}
use timelocked.Paths.FilePath.{FilePath, path_with}
use timelocked.Tui.TextField.{KeyEvent, char, key_left, key_backspace, key_end}
use timelocked.Tui.Editing.{Line, field_of, after_keys, after_edits, after_keys-field_of}
use timelocked.Tui.LockFileForm.{default_form}
use timelocked.Tui.LockFileKeys.{StringOperations, handle_key}
use timelocked.Tui.LockFileInvariant.{IsScreen, default_form-IsForm, handle_key-IsScreen}
use timelocked.Tui.Browser.{
  BrowserEntry, FileBrowserState, Listing, file_mode, unlock_input, all_files,
}
use timelocked.Tui.BrowserState.{new_browser, move_down}
use timelocked.Tui.Browsing.{IsBrowsed, start, step, down, hidden, Reach-IsBrowsed}
use timelocked.Tui.BrowserState.{toggle_hidden_entries}

abbrev line : Line
line = record { left = 98 ∷ 97 ∷ []; right = 99 ∷ []; armed = false }

abbrev keys : List KeyEvent
keys =
    record { code = key_left; modifiers = 0 }
    ∷ record { code = char 120; modifiers = 0 }
    ∷ record { code = key_backspace; modifiers = 0 }
    ∷ record { code = key_end; modifiers = 0 }
    ∷ []

after_keys-field_of_example : after_keys (field_of line) keys ≡ field_of (after_edits line keys)
after_keys-field_of_example = after_keys-field_of line keys

abbrev in_dir : FilePath
in_dir = path_with true (ascii "d" ∷ [])

abbrev listing : Listing
listing dir = ok (
    ok (record { file_name = ascii "b.timelocked"; path = in_dir; metadata = some false })
    ∷ ok (record { file_name = ascii ".a"; path = in_dir; metadata = some true })
    ∷ [])

abbrev opened : FileBrowserState
opened = new_browser listing (λ path. true) none file_mode unlock_input (some in_dir)

Reach-IsBrowsed_example : IsBrowsed (move_down (toggle_hidden_entries listing opened))
Reach-IsBrowsed_example = Reach-IsBrowsed (
    step
      (step (start listing (λ path. true) none file_mode unlock_input (some in_dir))
        (hidden listing opened))
      (down (toggle_hidden_entries listing opened)))

abbrev entry : BrowserEntry
entry = record { name = ascii "b"; path = in_dir; is_dir = false }

abbrev browser : FileBrowserState
browser = record {
  mode = file_mode;
  target = unlock_input;
  file_filter = all_files;
  show_hidden = false;
  current_dir = in_dir;
  entries = entry ∷ entry ∷ [];
  selected = 1;
  error = none;
}

-- Strings without white space, and a path of one name.
abbrev strings : StringOperations
strings = record {
  trim = λ chars. chars;
  as_bytes = λ chars. chars;
  path_from = λ chars. path_with false (chars ∷ []);
  to_string_lossy = λ path. ascii "x.timelocked";
}

-- An x is typed in the input field of the form that opens.
handle_key-IsScreen_example :
    IsScreen
      (handle_key strings 2_048 (ok 1_000) default_form (record { code = char 120; modifiers = 0 }))
handle_key-IsScreen_example =
    handle_key-IsScreen strings 2_048 (ok 1_000) default_form
      (record { code = char 120; modifiers = 0 }) default_form-IsForm
