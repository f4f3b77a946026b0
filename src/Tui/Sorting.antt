-- ===== src/Tui/Sorting.antt =====
-- The order of a browser's entries, and what is listed.
use timelocked.Common.{
  ◌≡◌, refl, sym, ◌⊎◌, inl, inr, Bool, true, false, not, ◌&&◌, ◌||◌, Bool-cases, Option, none, some,
  List, [], ◌∷◌, if◌then◌else◌, All, arith,
}
use timelocked.Common.Bytes.{Bytes}
use mathlib.Core.Path.{subst}
use timelocked.Base.{Result, ok, bind-inv}
use timelocked.Paths.FilePath.{FilePath, lowercase, is_hidden_entry_name}
use timelocked.Tui.Browser.{
  BrowserMode, BrowserFileFilter, BrowserEntry, DirEntry, Listing, is_file_mode, only_timelocked,
  is_timelocked_file, keep_entry, with_metadata, next_entry, collect_entries, bytes_lt,
  comes_before, insert_entry, sort_entries, read_browser_entries,
}

-- Not greater is transitive.
bytes_lt_trans :
    (xs ys zs : Bytes) → bytes_lt xs ys ≡ false → bytes_lt ys zs ≡ false → bytes_lt xs zs ≡ false
bytes_lt_trans xs ys [] h k = refl
bytes_lt_trans xs [] (z ∷ zs) h k = absurd (cc)
bytes_lt_trans [] (y ∷ ys) (z ∷ zs) h k = absurd (cc)
bytes_lt_trans (x ∷ xs) (y ∷ ys) (z ∷ zs) h k = ground (arith, bytes_lt_trans xs ys zs)

bytes_lt_asym : (xs ys : Bytes) → bytes_lt xs ys ≡ true → bytes_lt ys xs ≡ false
bytes_lt_asym xs [] h = cc
bytes_lt_asym [] (y ∷ ys) h = refl
bytes_lt_asym (x ∷ xs) (y ∷ ys) h = ground (arith, bytes_lt_asym xs ys)

abbrev order : Bool → Bool → Bool → Bool
order right_dir left_dir by_name =
    if right_dir
    then (if left_dir then by_name else true)
    else (if left_dir then false else by_name)

comes_before_trans :
    (a b c : BrowserEntry)
    → comes_before a b ≡ false
    → comes_before b c ≡ false
    → comes_before a c ≡ false
comes_before_trans a b c h k = dirs a.is_dir b.is_dir c.is_dir h k
  where
    dirs :
        (x y z : Bool)
        → order x y (bytes_lt (lowercase a.name) (lowercase b.name)) ≡ false
        → order y z (bytes_lt (lowercase b.name) (lowercase c.name)) ≡ false
        → order x z (bytes_lt (lowercase a.name) (lowercase c.name)) ≡ false
    dirs true true true h k =
        bytes_lt_trans (lowercase a.name) (lowercase b.name) (lowercase c.name) h k
    dirs false false false h k =
        bytes_lt_trans (lowercase a.name) (lowercase b.name) (lowercase c.name) h k
    dirs false y true h k = refl
    dirs true true false h k = k
    dirs true false z h k = absurd (cc)
    dirs false true false h k = absurd (cc)

comes_before_asym : (a b : BrowserEntry) → comes_before a b ≡ true → comes_before b a ≡ false
comes_before_asym a b h = dirs a.is_dir b.is_dir h
  where
    dirs :
        (x y : Bool)
        → order x y (bytes_lt (lowercase a.name) (lowercase b.name)) ≡ true
        → order y x (bytes_lt (lowercase b.name) (lowercase a.name)) ≡ false
    dirs true true h = bytes_lt_asym (lowercase a.name) (lowercase b.name) h
    dirs false false h = bytes_lt_asym (lowercase a.name) (lowercase b.name) h
    dirs true false h = refl
    dirs false true h = absurd (cc)

-- No entry behind another comes before it: directories first, then the names without case.
abbrev IsSorted : List BrowserEntry → Type 0
IsSorted [] = Unit {0}
IsSorted (entry ∷ rest) = All (λ later. comes_before later entry ≡ false) rest × IsSorted rest

module _ (P : BrowserEntry → Type 0) where
  insert_entry-All :
      (entry : BrowserEntry) (es : List BrowserEntry)
      → P entry
      → All P es
      → All P (insert_entry entry es)
  insert_entry-All entry [] h hs = (h, tt)
  insert_entry-All entry (first ∷ rest) h (hf, hs) = elim (Bool-cases (comes_before first entry)) [
    | inl before ↦ rw before (hf, insert_entry-All entry rest h hs)
    | inr behind ↦ rw behind (h, (hf, hs))
  ]

  sort_entries-All : (es : List BrowserEntry) → All P es → All P (sort_entries es)
  unfolding sort_entries
  sort_entries-All [] h = tt
  sort_entries-All (entry ∷ rest) (h, hs) =
      insert_entry-All entry (sort_entries rest) h (sort_entries-All rest hs)

All-trans :
    (entry first : BrowserEntry) (rest : List BrowserEntry)
    → comes_before first entry ≡ false
    → All (λ later. comes_before later first ≡ false) rest
    → All (λ later. comes_before later entry ≡ false) rest
All-trans entry first [] h hs = tt
All-trans entry first (e ∷ rest) h (he, hs) =
    (comes_before_trans e first entry he h, All-trans entry first rest h hs)

insert_entry-IsSorted :
    (entry : BrowserEntry) (es : List BrowserEntry) → IsSorted es → IsSorted (insert_entry entry es)
insert_entry-IsSorted entry [] h = (tt, tt)
insert_entry-IsSorted entry (first ∷ rest) (h, hs) = elim (Bool-cases (comes_before first entry)) [
  | inl before ↦ rw before (
    insert_entry-All (λ later. comes_before later first ≡ false) entry rest
        (comes_before_asym first entry before) h,
    insert_entry-IsSorted entry rest hs,
  )
  | inr behind ↦ rw behind ((behind, All-trans entry first rest behind h), (h, hs))
]

sort_entries-IsSorted : (es : List BrowserEntry) → IsSorted (sort_entries es)
unfolding sort_entries
sort_entries-IsSorted [] = tt
sort_entries-IsSorted (entry ∷ rest) =
    insert_entry-IsSorted entry (sort_entries rest) (sort_entries-IsSorted rest)

-- A directory stands before a file, and of two directories or two files, the one behind has no
-- lesser name.
abbrev pub IsBehind : BrowserEntry → BrowserEntry → Type 0
IsBehind entry later =
    ((entry.is_dir ≡ true) × (later.is_dir ≡ false))
    ⊎ ((entry.is_dir ≡ later.is_dir)
        × (bytes_lt (lowercase later.name) (lowercase entry.name) ≡ false))

abbrev pub IsOrdered : List BrowserEntry → Type 0
IsOrdered [] = Unit {0}
IsOrdered (entry ∷ rest) = All (IsBehind entry) rest × IsOrdered rest

comes_before-IsBehind :
    (entry later : BrowserEntry) → comes_before later entry ≡ false → IsBehind entry later
comes_before-IsBehind entry later h = dirs entry.is_dir later.is_dir h
  where
    dirs :
        (x y : Bool)
        → order y x (bytes_lt (lowercase later.name) (lowercase entry.name)) ≡ false
        → ((x ≡ true) × (y ≡ false))
          ⊎ ((x ≡ y) × (bytes_lt (lowercase later.name) (lowercase entry.name) ≡ false))
    dirs true true h = inr (refl, h)
    dirs false false h = inr (refl, h)
    dirs true false h = inl (refl, refl)
    dirs false true h = absurd (cc)

IsSorted-IsOrdered : (es : List BrowserEntry) → IsSorted es → IsOrdered es
IsSorted-IsOrdered [] h = tt
IsSorted-IsOrdered (entry ∷ rest) (h, hs) = (behind rest h, IsSorted-IsOrdered rest hs)
  where
    behind :
        (es : List BrowserEntry)
        → All (λ later. comes_before later entry ≡ false) es
        → All (IsBehind entry) es
    behind [] h = tt
    behind (later ∷ es) (h, hs) = (comes_before-IsBehind entry later h, behind es hs)

-- What a browser shows: hidden entries on request, directories only where a directory is chosen, and
-- files with the program's extension only where the filter says so.
unfoldable pub is_shown : BrowserMode → BrowserFileFilter → Bool → BrowserEntry → Bool
is_shown mode file_filter show_hidden entry =
    (show_hidden || not (is_hidden_entry_name entry.name))
    && ((is_file_mode mode || entry.is_dir)
        && (entry.is_dir || (not (only_timelocked file_filter) || is_timelocked_file entry.path)))

module _ (mode : BrowserMode) (file_filter : BrowserFileFilter) (show_hidden : Bool) where
  abbrev pub IsListed : List BrowserEntry → Type 0
  IsListed = All (λ entry. is_shown mode file_filter show_hidden entry ≡ true)

  is_shown_lem :
      (name : Bytes) (path : FilePath) (is_dir : Bool)
      → (show_hidden || not (is_hidden_entry_name name)) ≡ true
      → (is_file_mode mode || is_dir) ≡ true
      → (is_dir || (not (only_timelocked file_filter) || is_timelocked_file path)) ≡ true
      → is_shown mode file_filter show_hidden (record { name = name; path = path; is_dir = is_dir })
        ≡ true
  unfolding is_shown
  is_shown_lem name path is_dir h k l = rw (h, k, l) refl

  keep_entry-IsListed :
      (name : Bytes) (path : FilePath) (is_dir : Bool) (rest : List BrowserEntry)
      → (show_hidden || not (is_hidden_entry_name name)) ≡ true
      → IsListed rest
      → IsListed (keep_entry mode file_filter name path is_dir rest)
  keep_entry-IsListed name path is_dir rest h hs =
      tests (is_file_mode mode) is_dir (only_timelocked file_filter) (is_timelocked_file path) refl
        refl refl refl
    where
      moved :
          {d : Bool}
          → is_dir ≡ d
          → is_shown mode file_filter show_hidden
              (record { name = name; path = path; is_dir = is_dir })
            ≡ true
          → is_shown mode file_filter show_hidden (record { name = name; path = path; is_dir = d })
            ≡ true
      moved same h =
          subst
            (λ d.
              is_shown mode file_filter show_hidden
                (record { name = name; path = path; is_dir = d })
              ≡ true)
            same h

      tests :
          (m d f t : Bool)
          → is_file_mode mode ≡ m
          → is_dir ≡ d
          → only_timelocked file_filter ≡ f
          → is_timelocked_file path ≡ t
          → IsListed (keep_entry mode file_filter name path is_dir rest)
      tests false false f t em ed ef et = rw (em, ed) hs
      tests true false true false em ed ef et = rw (em, ed, ef, et) hs
      tests true false true true em ed ef et =
          let shown = is_shown_lem name path is_dir h (rw em refl) (rw (ed, et, ef) refl) in
          rw (em, ed, ef, et) (moved ed shown, hs)
      tests true false false t em ed ef et =
          let shown = is_shown_lem name path is_dir h (rw em refl) (rw (ed, ef) refl) in
          rw (em, ed, ef) (moved ed shown, hs)
      tests true true f t em ed ef et =
          let shown = is_shown_lem name path is_dir h (rw em refl) (rw ed refl) in
          rw (em, ed) (moved ed shown, hs)
      tests false true f t em ed ef et =
          let shown = is_shown_lem name path is_dir h (rw (em, ed) refl) (rw ed refl) in
          rw (em, ed) (moved ed shown, hs)

  next_entry-IsListed :
      (entry : DirEntry) (rest : List BrowserEntry)
      → IsListed rest
      → IsListed (next_entry mode file_filter show_hidden entry rest)
  next_entry-IsListed entry rest hs =
      elim (Bool-cases (not show_hidden && is_hidden_entry_name entry.file_name)) [
        | inl skipped ↦ rw skipped hs
        | inr kept ↦ rw kept (read entry.metadata (visible show_hidden _ kept))
      ]
    where
      read :
          (metadata : Option Bool)
          → (show_hidden || not (is_hidden_entry_name entry.file_name)) ≡ true
          → IsListed (with_metadata mode file_filter entry.file_name entry.path metadata rest)
      read none h = hs
      read (some is_dir) h = keep_entry-IsListed entry.file_name entry.path is_dir rest h hs

      visible : (s n : Bool) → (not s && n) ≡ false → (s || not n) ≡ true
      visible true n h = refl
      visible false true h = sym h
      visible false false h = refl

  collect_entries-IsListed :
      (listed : List (Result DirEntry)) (entries : List BrowserEntry)
      → collect_entries mode file_filter show_hidden listed ≡ ok entries
      → IsListed entries
  unfolding collect_entries
  collect_entries-IsListed [] entries h = let e : [] ≡ entries = cc in subst IsListed e tt
  collect_entries-IsListed (entry ∷ listed) entries h = bind-inv entry _ h λ found e0 h0.
      bind-inv (collect_entries mode file_filter show_hidden listed) _ h0 λ rest e1 h1.
        let e : next_entry mode file_filter show_hidden found rest ≡ entries = cc in
        subst IsListed e (next_entry-IsListed found rest (collect_entries-IsListed listed rest e1))

-- What a browser lists is sorted, and each entry is one that it shows.
pub read_browser_entries-IsListed :
    (listing : Listing) (dir : FilePath) (mode : BrowserMode) (file_filter : BrowserFileFilter)
    (show_hidden : Bool) (entries : List BrowserEntry)
    → read_browser_entries listing dir mode file_filter show_hidden ≡ ok entries
    → IsOrdered entries × IsListed mode file_filter show_hidden entries
unfolding read_browser_entries
read_browser_entries-IsListed listing dir mode file_filter show_hidden entries h =
    bind-inv (listing dir) _ h λ listed e0 h0.
      bind-inv (collect_entries mode file_filter show_hidden listed) _ h0 λ found e1 h1.
        let e : sort_entries found ≡ entries = cc in
        rw (← e) (
          IsSorted-IsOrdered (sort_entries found) (sort_entries-IsSorted found),
          sort_entries-All _ found
              (collect_entries-IsListed mode file_filter show_hidden listed found e1),
        )
