-- ===== src/Pwr/Bowl/Ghosts.antt =====
-- The ghosts of pwr/bowl/bowl_overlay.go: the entries of the old container that the new one lacks.
pub mod Order
pub mod Detect
use wharf.Base.{
  ℕ, Bool, true, false, Option, none, some, List, [], ◌∷◌, ◌++◌, map, length, ltb, bytes_equal,
  if◌then◌else◌,
}
use wharf.Pwr.Bowl.{FilePath, Symlink, Container}
use wharf.Pwr.Bowl.Disk.{
  Place, in_output, OsError, not_exist, other_error, BowlError, os_failed, Step, done, ◌>>◌,
  for_each, FileSystem,
}
use wharf.Pwr.Bowl.Transpositions.{has_path}

pub data GhostKind : Type 0 where
  ghost_dir ghost_file ghost_symlink : GhostKind

pub record Ghost : Type 0 where
  pub kind : GhostKind
  pub path : FilePath

abbrev pub link_paths : Container → List FilePath
link_paths c = map (λ (s : Symlink). s.path) c.symlinks

-- `sourceFileMap`, all the paths of a container
abbrev pub all_paths : Container → List FilePath
all_paths c = c.files ++ (link_paths c ++ c.dirs)

-- One of the loops over the target's entries
unfoldable pub missing : GhostKind → List FilePath → List FilePath → List Ghost
unfolding has_path
missing kind source [] = []
missing kind source (p ∷ ps) =
    if has_path p source
    then missing kind source ps
    else record { kind = kind; path = p } ∷ missing kind source ps

unfoldable pub detect_ghosts : Container → Container → List Ghost
unfolding missing
detect_ghosts source target =
    missing ghost_file (all_paths source) target.files
    ++ (missing ghost_symlink (all_paths source) (link_paths target)
        ++ missing ghost_dir (all_paths source) target.dirs)

-- `byDecreasingLength.Less`
unfoldable pub less : Ghost → Ghost → Bool
less g g' = ltb (length g'.path) (length g.path)

-- `sort.Sort`, whose order of the ghosts that are as long as each other is not documented
unfoldable pub insert : Ghost → List Ghost → List Ghost
unfolding less
insert g [] = g ∷ []
insert g (h ∷ hs) = if less h g then h ∷ insert g hs else g ∷ h ∷ hs

unfoldable pub sort : List Ghost → List Ghost
unfolding insert
sort [] = []
sort (g ∷ gs) = insert g (sort gs)

-- What the error of `Remove` means for a ghost
unfoldable pub removal_error : GhostKind → Option OsError → Option BowlError
removal_error kind none = none
removal_error kind (some not_exist) = none
removal_error ghost_dir (some other_error) = none
removal_error ghost_file (some other_error) = some (os_failed other_error)
removal_error ghost_symlink (some other_error) = some (os_failed other_error)

module _ {D : Type 0} (fs : FileSystem D) where
  unfoldable pub delete_ghost : Ghost → Step D
  unfolding removal_error
  delete_ghost g d = elim (fs.lstat (in_output g.path) d) [
    | none ↦ (none, d)
    | some k ↦ (
      removal_error g.kind (fs.remove (in_output g.path) d).0,
      (fs.remove (in_output g.path) d).1,
    )
  ]

  unfoldable pub delete_ghosts : Container → Container → Step D
  unfolding detect_ghosts sort delete_ghost
  delete_ghosts source target = for_each delete_ghost (sort (detect_ghosts source target))
