-- ===== src/Disk/Directories.antt =====
-- Disks that differ by directories only.
use timelocked.Common.{
  ℕ, zero, suc, ◌≡◌, refl, ◌∙◌, ◌⊎◌, inl, inr, true, Bool-cases, List, [], ◌∷◌, drop, arith,
}
use timelocked.Common.Bytes.{Bytes, ascii}
use timelocked.Base.{Result, ok, err}
use timelocked.Paths.FilePath.{FilePath, parent, path_of}
use timelocked.Disk.{Disk, Answers, is_outer, is_above, made, outward, created, create_dir_all}
use timelocked.Unlock.Request.{or_else}

-- The directory that a file is put into.
abbrev pub dir_of : FilePath → FilePath
dir_of path = or_else (parent path) (path_of (ascii "."))

-- What files hold is the same, and a path exists as before, or is this directory or one that it
-- stands in, and exists now.
abbrev pub OnlyDirs : FilePath → Disk → Disk → Type 0
OnlyDirs dir disk disk' =
    (disk'.contents ≡ disk.contents)
    × ((other : FilePath)
        → (disk'.exists other ≡ disk.exists other)
          ⊎ ((disk'.exists other ≡ true) × (is_above other dir ≡ true)))

pub OnlyDirs-same : (dir : FilePath) (disk : Disk) → OnlyDirs dir disk disk
OnlyDirs-same dir disk = (refl, λ other. inl refl)

pub OnlyDirs-trans :
    (dir : FilePath) (a b c : Disk) → OnlyDirs dir a b → OnlyDirs dir b c → OnlyDirs dir a c
OnlyDirs-trans dir a b c (same, before) (same', behind) =
    (same' ∙ same, λ other. both other (before other) (behind other))
  where
    both :
        (other : FilePath)
        → (b.exists other ≡ a.exists other)
          ⊎ ((b.exists other ≡ true) × (is_above other dir ≡ true))
        → (c.exists other ≡ b.exists other)
          ⊎ ((c.exists other ≡ true) × (is_above other dir ≡ true))
        → (c.exists other ≡ a.exists other)
          ⊎ ((c.exists other ≡ true) × (is_above other dir ≡ true))
    both other (inl e) (inl e') = inl (e' ∙ e)
    both other (inr (there, above)) (inl e') = inr (e' ∙ there, above)
    both other _ (inr h) = inr h

is_outer-drop :
    (n : ℕ) (outer names : List Bytes)
    → is_outer outer (drop n names) ≡ true
    → is_outer outer names ≡ true
is_outer-drop zero outer names h = h
is_outer-drop (suc n) outer [] h = h
is_outer-drop (suc n) outer (name ∷ names) h =
    let rest = is_outer-drop n outer names h in ground arith

is_above-outward :
    (n : ℕ) (other dir : FilePath)
    → is_above other (outward n dir) ≡ true
    → is_above other dir ≡ true
is_above-outward n other dir h = ground (arith, is_outer-drop n other.names dir.names)

made-OnlyDirs :
    (dir inner : FilePath) (disk : Disk)
    → ((other : FilePath) → is_above other dir ≡ true → is_above other inner ≡ true)
    → OnlyDirs inner disk (made dir disk)
unfolding made
made-OnlyDirs dir inner disk above = (
  refl,
  λ other. elim (Bool-cases (is_above other dir)) [
    | inl h ↦ inr (rw h refl, above other h)
    | inr h ↦ inl (rw h refl)
  ],
)

pub create_dir_all-OnlyDirs :
    (answers : Answers) (dir : FilePath) (disk : Disk)
    → OnlyDirs dir disk (create_dir_all answers dir disk).1
unfolding create_dir_all
create_dir_all-OnlyDirs answers dir disk = go (answers.create_dir_all dir)
  where
    go : (r : Result (Unit {0})) → OnlyDirs dir disk (created r (answers.unmade dir) dir disk).1
    go (ok done) = made-OnlyDirs dir dir disk (λ other h. h)
    go (err e) =
        made-OnlyDirs (outward (answers.unmade dir) dir) dir disk
          (λ other h. is_above-outward (answers.unmade dir) other dir h)
