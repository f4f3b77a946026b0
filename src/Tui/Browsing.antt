-- ===== src/Tui/Browsing.antt =====
-- The states that the file browser reaches.
use timelocked.Common.{
  ℕ, suc, ◌+◌, ◌-◌, ◌%◌, ◌≤◌, ◌<◌, ◌≡◌, refl, ◌∙◌, ap, ◌⊎◌, inl, inr, Bool, true, false, not, ◌&&◌,
  Bool-cases, Option, none, some, List, [], ◌∷◌, ◌==◌, ltb, if◌then◌else◌, is_empty, length, arith,
}
use timelocked.Base.{Result, ok, err}
use timelocked.Paths.FilePath.{FilePath, parent}
use timelocked.Tui.Browser.{
  BrowserMode, BrowserFileFilter, BrowserTarget, BrowserEntry, FileBrowserState, Listing,
  is_file_mode, only_timelocked, first_file, later_file, or_zero, default_browser_selection_index,
  read_browser_entries, browser_filter_toggle_available,
}
use timelocked.Tui.Sorting.{IsOrdered, IsListed, read_browser_entries-IsListed}
use native.Mathlib.Nat.{mod-lt, mod-eq_of_lt, mod_self}
use timelocked.Tui.BrowserState.{
  selected_entry, move_up, move_down, loaded, reload_entries, toggle_file_filter,
  toggle_hidden_entries, navigate_to, navigate_selected, go_to_parent, navigate_parent, new_in,
  new_browser,
}

-- The operations of the browser, one at a time. The file system may list something else each time.
pub data Step : FileBrowserState → FileBrowserState → Type 0 where
  up : (s : FileBrowserState) → Step s (move_up s)
  down : (s : FileBrowserState) → Step s (move_down s)
  filter : (listing : Listing) (s : FileBrowserState) → Step s (toggle_file_filter listing s)
  hidden : (listing : Listing) (s : FileBrowserState) → Step s (toggle_hidden_entries listing s)
  into : (listing : Listing) (s : FileBrowserState) → Step s (navigate_selected listing s)
  out_of : (listing : Listing) (s : FileBrowserState) → Step s (navigate_parent listing s)

pub data Reach : FileBrowserState → Type 0 where
  start :
      (listing : Listing) (is_dir : FilePath → Bool) (current : Option FilePath)
      (mode : BrowserMode) (target : BrowserTarget) (preferred : Option FilePath)
      → Reach (new_browser listing is_dir current mode target preferred)
  step : {s t : FileBrowserState} → Reach s → Step s t → Reach t

-- An entry is selected, or there is none.
abbrev pub IsSelected : FileBrowserState → Type 0
IsSelected s = (s.selected < length s.entries) ⊎ ((s.entries ≡ []) × (s.selected ≡ 0))

-- What is shown belongs to the state's choices, in order.
abbrev pub IsBrowsed : FileBrowserState → Type 0
IsBrowsed s =
    IsSelected s × IsOrdered s.entries × IsListed s.mode s.file_filter s.show_hidden s.entries

later_file-lt : (n : ℕ) (o : Option ℕ) → or_zero o ≤ n → or_zero (later_file o) ≤ suc n
later_file-lt n none h = omega arith
later_file-lt n (some m) h = omega arith

first_file-lt :
    (e : BrowserEntry) (es : List BrowserEntry) → or_zero (first_file (e ∷ es)) ≤ length es
first_file-lt e [] = elim (Bool-cases (not e.is_dir)) [
  | inl file ↦ rw file (omega arith)
  | inr dir ↦ rw dir (omega arith)
]
first_file-lt e (f ∷ es) =
    let more = later_file-lt (length es) (first_file (f ∷ es)) (first_file-lt f es) in
    elim (Bool-cases (not e.is_dir)) [ inl file ↦ rw file (omega arith) | inr dir ↦ rw dir more ]

default_browser_selection_index-IsSelected :
    (es : List BrowserEntry) (mode : BrowserMode) (file_filter : BrowserFileFilter)
    → (default_browser_selection_index es mode file_filter < length es)
      ⊎ ((es ≡ []) × (default_browser_selection_index es mode file_filter ≡ 0))
unfolding default_browser_selection_index
default_browser_selection_index-IsSelected [] mode file_filter = inr (refl, refl)
default_browser_selection_index-IsSelected (e ∷ es) mode file_filter =
    let bound = first_file-lt e es in
    elim (Bool-cases (is_file_mode mode && only_timelocked file_filter)) [
      | inl first ↦ rw first (inl (omega arith))
      | inr top ↦ rw top (inl (omega arith))
    ]

loaded-IsBrowsed :
    (listing : Listing) (s : FileBrowserState) (r : Result (List BrowserEntry))
    → read_browser_entries listing s.current_dir s.mode s.file_filter s.show_hidden ≡ r
    → IsBrowsed (loaded s r)
loaded-IsBrowsed listing s (err e) h = (inr (refl, refl), tt, tt)
loaded-IsBrowsed listing s (ok entries) h =
    let (sorted, listed) =
      read_browser_entries-IsListed listing s.current_dir s.mode s.file_filter s.show_hidden entries
        h in
    (default_browser_selection_index-IsSelected entries s.mode s.file_filter, sorted, listed)

reload_entries-IsBrowsed :
    (listing : Listing) (s : FileBrowserState) → IsBrowsed (reload_entries listing s)
unfolding reload_entries
reload_entries-IsBrowsed listing s = loaded-IsBrowsed listing s _ refl

length-positive : (es : List BrowserEntry) → is_empty es ≡ false → 0 < length es
length-positive [] h = absurd (cc)
length-positive (e ∷ es) h = omega arith

move_up-IsBrowsed : (s : FileBrowserState) → IsBrowsed s → IsBrowsed (move_up s)
unfolding move_up
move_up-IsBrowsed s (selected, sorted, listed) = elim (Bool-cases (is_empty s.entries)) [
  | inl empty ↦ rw empty (selected, sorted, listed)
  | inr some_entries ↦
      let positive = length-positive s.entries some_entries in
      elim (Bool-cases (s.selected == 0)) [
        | inl first ↦ rw (some_entries, first) (inl (omega arith), sorted, listed)
        | inr below ↦ rw (some_entries, below) (inl (one_less selected positive), sorted, listed)
      ]
]
  where
    one_less : IsSelected s → 0 < length s.entries → s.selected - 1 < length s.entries
    one_less (inl h) positive = omega arith
    one_less (inr (nothing, top)) positive = omega arith

move_down-IsBrowsed : (s : FileBrowserState) → IsBrowsed s → IsBrowsed (move_down s)
unfolding move_down
move_down-IsBrowsed s (selected, sorted, listed) = elim (Bool-cases (is_empty s.entries)) [
  | inl empty ↦ rw empty (selected, sorted, listed)
  | inr some_entries ↦
      let positive = length-positive s.entries some_entries in
      rw some_entries (inl (mod-lt (s.selected + 1) positive), sorted, listed)
]

Step-IsBrowsed : {s t : FileBrowserState} → Step s t → IsBrowsed s → IsBrowsed t
unfolding toggle_file_filter toggle_hidden_entries navigate_selected navigate_parent
Step-IsBrowsed (up s) h = move_up-IsBrowsed s h
Step-IsBrowsed (down s) h = move_down-IsBrowsed s h
Step-IsBrowsed (filter listing s) h =
    elim (Bool-cases (not (browser_filter_toggle_available s.mode s.target))) [
      | inl fixed ↦ rw fixed h
      | inr free ↦ rw free (reload_entries-IsBrowsed listing _)
    ]
Step-IsBrowsed (hidden listing s) h = reload_entries-IsBrowsed listing _
Step-IsBrowsed (into listing s) h = go (selected_entry s)
  where
    go : (entry : Option BrowserEntry) → IsBrowsed (navigate_to listing s entry)
    go none = h
    go (some entry) = elim (Bool-cases entry.is_dir) [
      | inl dir ↦ rw dir (reload_entries-IsBrowsed listing _)
      | inr file ↦ rw file h
    ]
Step-IsBrowsed (out_of listing s) h = go (parent s.current_dir)
  where
    go : (dir : Option FilePath) → IsBrowsed (go_to_parent listing s dir)
    go none = h
    go (some dir) = reload_entries-IsBrowsed listing _

-- In every state of the browser that is reached from a new one by its operations, whatever the file
-- system lists each time, an entry is selected or there is none, directories come first and then
-- names in order without case, and each entry is one that the mode, the filter and the choice about
-- hidden entries let show.
pub Reach-IsBrowsed : {s : FileBrowserState} → Reach s → IsBrowsed s
unfolding new_browser new_in
Reach-IsBrowsed (start listing is_dir current mode target preferred) =
    reload_entries-IsBrowsed listing _
Reach-IsBrowsed (step reached one) = Step-IsBrowsed one (Reach-IsBrowsed reached)

abbrev at : FileBrowserState → ℕ → FileBrowserState
at s index = record s { selected = index }

abbrev before : ℕ → ℕ → ℕ
before n index = if index == 0 then n - 1 else index - 1

move_up-at :
    (s : FileBrowserState)
    → is_empty s.entries ≡ false
    → move_up s ≡ at s (before (length s.entries) s.selected)
unfolding move_up
move_up-at s some_entries = elim (Bool-cases (s.selected == 0)) [
  | inl first ↦ rw (some_entries, first) refl
  | inr below ↦ rw (some_entries, below) refl
]

move_down-at :
    (s : FileBrowserState)
    → is_empty s.entries ≡ false
    → move_down s ≡ at s ((s.selected + 1) % length s.entries)
unfolding move_down
move_down-at s some_entries = rw some_entries refl

next-cases :
    (n index : ℕ)
    → index < n
    → ((index + 1 < n) × ((index + 1) % n ≡ index + 1)) ⊎ ((index + 1 ≡ n) × ((index + 1) % n ≡ 0))
next-cases n index h = elim (Bool-cases (ltb (index + 1) n)) [
  | inl within ↦ inl (ground arith, mod-eq_of_lt (ground arith))
  | inr last ↦ (let same : index + 1 ≡ n = ground arith in inr (same, rw same (mod_self n)))
]

not_empty : (es : List BrowserEntry) (n : ℕ) → n < length es → is_empty es ≡ false
not_empty [] n h = absurd (omega arith)
not_empty (e ∷ es) n h = refl

-- Down and up undo each other, in whichever order, where an entry is selected.
move_up-move_down :
    (s : FileBrowserState)
    → s.selected < length s.entries
    → (move_up (move_down s) ≡ s) × (move_down (move_up s) ≡ s)
move_up-move_down s h =
    let some_entries = not_empty s.entries s.selected h in
    (
      ap move_up (move_down-at s some_entries)
          ∙ move_up-at (at s ((s.selected + 1) % length s.entries)) some_entries
          ∙ ap (at s) (up_after (next-cases (length s.entries) s.selected h)),
      ap move_down (move_up-at s some_entries)
          ∙ move_down-at (at s (before (length s.entries) s.selected)) some_entries
          ∙ ap (at s) (down_after (Bool-cases (s.selected == 0))),
    )
  where
    up_after :
        (((s.selected + 1 < length s.entries)
            × ((s.selected + 1) % length s.entries ≡ s.selected + 1))
          ⊎ ((s.selected + 1 ≡ length s.entries) × ((s.selected + 1) % length s.entries ≡ 0)))
        → before (length s.entries) ((s.selected + 1) % length s.entries) ≡ s.selected
    up_after (inl (within, e)) = rw e (ground arith)
    up_after (inr (last, e)) = rw e (ground arith)

    down_after :
        ((s.selected == 0) ≡ true) ⊎ ((s.selected == 0) ≡ false)
        → (before (length s.entries) s.selected + 1) % length s.entries ≡ s.selected
    down_after (inl first) =
        let last : before (length s.entries) s.selected + 1 ≡ length s.entries = ground arith in
        rw last (mod_self (length s.entries) ∙ ground arith)
    down_after (inr below) =
        let same : before (length s.entries) s.selected + 1 ≡ s.selected = ground arith in
        rw same (mod-eq_of_lt h)
