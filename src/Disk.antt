-- ===== src/Disk.antt =====
-- The file system under the use cases: what files hold, what paths exist, and what the system
-- answers to the calls that write. Paths that lead to one place by other names are not followed.
pub mod Directories
use timelocked.Common.{ℕ, drop, Bool, true, false, ◌&&◌, ◌||◌, List, [], ◌∷◌, if◌then◌else◌}
use timelocked.Common.Bytes.{Bytes, bytes_eq}
use timelocked.Base.{Result, ok, err}
use timelocked.Paths.FilePath.{FilePath, path_with}

pub record Disk : Type 0 where
  -- `File::open` and reading to the end
  pub contents : FilePath → Result Bytes
  -- `Path::exists`
  pub exists : FilePath → Bool

-- What the calls answer: `create_dir_all`, `NamedTempFile::new_in`, `flush`, `persist`.
pub record Answers : Type 0 where
  pub create_dir_all : FilePath → Result (Unit {0})
  -- How many of the innermost directories are not made where `create_dir_all` fails.
  pub unmade : FilePath → ℕ
  pub new_temp_in : FilePath → Result (Unit {0})
  pub flush : Result (Unit {0})
  pub persist : FilePath → Result (Unit {0})

abbrev pub names_eq : List Bytes → List Bytes → Bool
names_eq [] [] = true
names_eq (x ∷ xs) (y ∷ ys) = bytes_eq x y && names_eq xs ys
names_eq _ _ = false

abbrev pub bool_eq : Bool → Bool → Bool
bool_eq true true = true
bool_eq false false = true
bool_eq _ _ = false

abbrev pub path_eq : FilePath → FilePath → Bool
path_eq a b = bool_eq a.absolute b.absolute && names_eq a.names b.names

-- A temporary file takes its place at a path, over what was there.
unfoldable pub persisted : FilePath → Bytes → Disk → Disk
persisted path bytes disk = record {
  contents = λ other. if path_eq other path then ok bytes else disk.contents other;
  exists = λ other. path_eq other path || disk.exists other;
}

-- Names that are the outermost ones of a path, one or more of them; the last name stands first.
abbrev pub is_outer : List Bytes → List Bytes → Bool
is_outer outer [] = false
is_outer outer (name ∷ names) = names_eq outer (name ∷ names) || is_outer outer names

-- A directory, or one that it stands in.
abbrev pub is_above : FilePath → FilePath → Bool
is_above other dir = bool_eq other.absolute dir.absolute && is_outer other.names dir.names

-- A directory is there, and all that it stands in.
unfoldable pub made : FilePath → Disk → Disk
made dir disk = record {
  contents = disk.contents;
  exists = λ other. is_above other dir || disk.exists other;
}

abbrev pub outward : ℕ → FilePath → FilePath
outward n dir = path_with dir.absolute (drop n dir.names)

abbrev pub created : Result (Unit {0}) → ℕ → FilePath → Disk → Result (Unit {0}) × Disk
created (ok done) unmade dir disk = (ok tt, made dir disk)
created (err e) unmade dir disk = (err e, made (outward unmade dir) disk)

-- `std::fs::create_dir_all`: a failure may leave some of the directories.
unfoldable pub create_dir_all : Answers → FilePath → Disk → Result (Unit {0}) × Disk
create_dir_all answers dir disk = created (answers.create_dir_all dir) (answers.unmade dir) dir disk

-- What follows a check, on the disk as it is or not at all.
abbrev pub if_ok {ℓ} : {A : Type ℓ} → Result (Unit {0}) → Disk → Result A × Disk → Result A × Disk
if_ok (ok done) disk next = next
if_ok (err e) disk next = (err e, disk)
