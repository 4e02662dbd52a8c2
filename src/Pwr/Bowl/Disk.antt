-- ===== src/Pwr/Bowl/Disk.antt =====
-- What `overlayBowl` asks of the disk (the package screw and the standard library), and its `copy`
-- and `move` (pwr/bowl/bowl_overlay.go).
pub mod Moves
use wharf.Base.{
  ℕ, Bool, true, false, Option, none, some, List, [], ◌∷◌, if◌then◌else◌, ◌≡◌, ◌≢◌, ◌⊎◌, inl, inr,
}
use wharf.Pwr.Bowl.{FilePath}

-- `filepath.Join` of one of the two folders and a path of a container
pub data Place : Type 0 where
  in_output in_stage : FilePath → Place

-- `not_exist` is an error of which `os.IsNotExist` holds.
pub data OsError : Type 0 where
  not_exist other_error : OsError

pub data FileKind : Type 0 where
  dir_kind symlink_kind file_kind : FileKind

pub record FileSystem (D : Type 0) : Type 0 where
  -- `Open`, and the bytes of the file: `none` where it is no file or can't be opened
  pub read : Place → D → Option (List ℕ)
  -- `OpenFile` with `O_CREATE` and `O_TRUNC`
  pub create : Place → D → Option OsError × D
  -- What `io.Copy` writes to a file that is open
  pub fill : Place → List ℕ → D → Option OsError × D
  pub remove : Place → D → Option OsError × D
  pub remove_all : Place → D → Option OsError × D
  pub rename : Place → Place → D → Option OsError × D
  pub mkdir_all : Place → D → Option OsError × D
  -- `MkdirAll(filepath.Dir(path))`
  pub mkdir_parents : Place → D → Option OsError × D
  pub lstat : Place → D → Option FileKind
  pub readlink : Place → D → OsError ⊎ FilePath
  pub symlink : FilePath → Place → D → Option OsError × D

pub data BowlError : Type 0 where
  os_failed : OsError → BowlError
  patch_failed : BowlError
  index_out_of_range : BowlError
  pool_failed : BowlError

-- A step ends the work with an error, or lets it go on.
abbrev pub Step : Type 0 → Type 0
Step D = D → Option BowlError × D

abbrev pub done : {D : Type 0} → Step D
done d = (none, d)

abbrev pub fail : {D : Type 0} → BowlError → Step D
fail e d = (some e, d)

abbrev pub after : {D : Type 0} → Option BowlError → Step D → Step D
after none k d = k d
after (some e) k d = (some e, d)

infixl 10 ◌>>◌
abbrev pub ◌>>◌ : {D : Type 0} → Step D → Step D → Step D
(m >> k) d = after (m d).0 k (m d).1

-- An error of the operating system is returned as it is.
abbrev pub os_error : Option OsError → Option BowlError
os_error none = none
os_error (some e) = some (os_failed e)

abbrev pub os : {D : Type 0} → (D → Option OsError × D) → Step D
os m d = (os_error (m d).0, (m d).1)

abbrev pub ignore_missing : Option OsError → Option BowlError
ignore_missing none = none
ignore_missing (some not_exist) = none
ignore_missing (some other_error) = some (os_failed other_error)

abbrev pub for_each : {D A : Type 0} → (A → Step D) → List A → Step D
for_each f [] d = (none, d)
for_each f (x ∷ xs) d = (f x >> for_each f xs) d

pub data MkdirBehavior : Type 0 where
  never if_needed : MkdirBehavior

module _ {D : Type 0} (fs : FileSystem D) where
  open fs use {read, create, fill, remove, rename, mkdir_parents}

  abbrev pub mkdir_by : MkdirBehavior → Place → Step D
  mkdir_by never p = done
  mkdir_by if_needed p = os (mkdir_parents p)

  -- `io.Copy` from the open reader: it sees what the creation of the new file did.
  pub copy_bytes : Place → Place → Step D
  copy_bytes old new d = elim (read old d) [
    | none ↦ (some (os_failed other_error), d)
    | some bytes ↦ os (fill new bytes) d
  ]

  pub open_and_copy : Place → Place → Step D
  unfolding copy_bytes
  open_and_copy old new d = elim (read old d) [
    | none ↦ (some (os_failed not_exist), d)
    | some bytes ↦ (os (create new) >> copy_bytes old new) d
  ]

  unfoldable pub copy : Place → Place → MkdirBehavior → Step D
  unfolding open_and_copy
  copy old new behavior = mkdir_by behavior new >> open_and_copy old new

  pub remove_if_exists : Place → Step D
  remove_if_exists p d = (ignore_missing (remove p d).0, (remove p d).1)

  -- The rename, and the fallback when it fails
  pub rename_or_copy : Place → Place → Step D
  unfolding copy
  rename_or_copy old new d = elim (rename old new d).0 [
    | none ↦ (none, (rename old new d).1)
    | some e ↦ (copy old new never >> os (remove old)) (rename old new d).1
  ]

  unfoldable pub move : Place → Place → Step D
  unfolding remove_if_exists rename_or_copy
  move old new = remove_if_exists new >> os (mkdir_parents new) >> rename_or_copy old new

-- What the documentation of these calls says of the files' contents: a call changes no file but
-- the ones that it names.
pub record IsFileSystem {D : Type 0} (fs : FileSystem D) : Type 0 where
  pub create_empties :
      (p : Place) (d : D) → (fs.create p d).0 ≡ none → fs.read p (fs.create p d).1 ≡ some []
  pub create_keeps : (p q : Place) (d : D) → q ≢ p → fs.read q (fs.create p d).1 ≡ fs.read q d
  pub fill_writes :
      (p : Place) (bytes : List ℕ) (d : D)
      → (fs.fill p bytes d).0 ≡ none
      → fs.read p d ≡ some []
      → fs.read p (fs.fill p bytes d).1 ≡ some bytes
  pub fill_keeps :
      (p q : Place) (bytes : List ℕ) (d : D) → q ≢ p → fs.read q (fs.fill p bytes d).1 ≡ fs.read q d
  pub remove_keeps : (p q : Place) (d : D) → q ≢ p → fs.read q (fs.remove p d).1 ≡ fs.read q d
  pub mkdir_parents_keeps : (p q : Place) (d : D) → fs.read q (fs.mkdir_parents p d).1 ≡ fs.read q d
  pub rename_moves :
      (p q : Place) (d : D)
      → (fs.rename p q d).0 ≡ none
      → fs.read q (fs.rename p q d).1 ≡ fs.read p d
  pub rename_keeps :
      (p q r : Place) (d : D) → r ≢ p → r ≢ q → fs.read r (fs.rename p q d).1 ≡ fs.read r d
  -- A rename that fails does nothing.
  pub rename_fails :
      (p q r : Place) (d : D) (e : OsError)
      → (fs.rename p q d).0 ≡ some e
      → fs.read r (fs.rename p q d).1 ≡ fs.read r d
