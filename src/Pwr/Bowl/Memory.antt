-- ===== src/Pwr/Bowl/Memory.antt =====
-- A disk that is a function, for the runs of the overlay bowl (pwr/bowl/bowl_overlay.go). Renames out
-- of the staging folder fail on it.
use wharf.Base.{
  ℕ, Bool, true, false, Option, none, some, List, [], ◌∷◌, ◌≡◌, ◌≢◌, refl, sym, ap, inl, inr,
  bytes_equal, bytes_equal→eq, bytes_equal_refl, Bool-cases, if◌then◌else◌,
}
use wharf.Pwr.Bowl.{FilePath}
use wharf.Pwr.Bowl.Disk.{
  Place, in_output, in_stage, OsError, not_exist, other_error, file_kind, FileSystem, IsFileSystem,
}

abbrev pub Disk : Type 0
Disk = Place → Option (List ℕ)

unfoldable pub same_place : Place → Place → Bool
unfolding bytes_equal
same_place (in_output p) (in_output q) = bytes_equal p q
same_place (in_stage p) (in_stage q) = bytes_equal p q
same_place _ _ = false

same_place→eq : (p q : Place) → same_place p q ≡ true → p ≡ q
unfolding same_place
same_place→eq (in_output p) (in_output q) h = ap in_output (bytes_equal→eq p q h)
same_place→eq (in_stage p) (in_stage q) h = ap in_stage (bytes_equal→eq p q h)
same_place→eq (in_output p) (in_stage q) h = absurd cc
same_place→eq (in_stage p) (in_output q) h = absurd cc

same_place_refl : (p : Place) → same_place p p ≡ true
unfolding same_place
same_place_refl (in_output p) = bytes_equal_refl p
same_place_refl (in_stage p) = bytes_equal_refl p

unfoldable pub set : Place → Option (List ℕ) → Disk → Disk
unfolding same_place
set p content d q = if same_place p q then content else d q

set_at : (p : Place) (content : Option (List ℕ)) (d : Disk) → set p content d p ≡ content
unfolding set
set_at p content d = rw (set, same_place_refl p)

set_keeps : (p q : Place) (content : Option (List ℕ)) (d : Disk) → q ≢ p → set p content d q ≡ d q
unfolding set
set_keeps p q content d ne = elim (Bool-cases (same_place p q)) [
  | inl e ↦ absurd (ne (sym (same_place→eq p q e)))
  | inr e ↦ rw (set, e)
]

unfoldable pub remove_file : Place → Disk → Option OsError × Disk
unfolding set
remove_file p d = elim (d p) [ none ↦ (some not_exist, d) | some bytes ↦ (none, set p none d) ]

unfoldable pub rename_file : Place → Place → Disk → Option OsError × Disk
unfolding set
rename_file (in_output p) new d = (none, set new (d (in_output p)) (set (in_output p) none d))
rename_file (in_stage p) new d = (some other_error, d)

abbrev works : Place → Disk → Option OsError × Disk
works p d = (none, d)

abbrev pub disk_calls : FileSystem Disk
disk_calls = record {
  read = λ p d. d p;
  create = λ p d. (none, set p (some []) d);
  fill = λ p bytes d. (none, set p (some bytes) d);
  remove = remove_file;
  remove_all = remove_file;
  rename = rename_file;
  mkdir_all = works;
  mkdir_parents = works;
  lstat = λ p d. elim (d p) [ none ↦ none | some bytes ↦ some file_kind ];
  readlink = λ p d. inl not_exist;
  symlink = λ dest p d. (none, d);
}

remove_file-keeps : (p q : Place) (d : Disk) → q ≢ p → (remove_file p d).1 q ≡ d q
unfolding remove_file
remove_file-keeps p q d ne =
    elim (d p)
      as (λ o.
        (elim o as (λ _. Option OsError × Disk) [
          | none ↦ (some not_exist, d)
          | some bytes ↦ (none, set p none d)
        ]).1
          q
        ≡ d q) [ none ↦ refl | some bytes ↦ set_keeps p q none d ne ]

rename_file-moves :
    (p q : Place) (d : Disk) → (rename_file p q d).0 ≡ none → (rename_file p q d).1 q ≡ d p
unfolding rename_file
rename_file-moves (in_output p) q d h = set_at q (d (in_output p)) (set (in_output p) none d)
rename_file-moves (in_stage p) q d h = absurd cc

rename_file-keeps : (p q r : Place) (d : Disk) → r ≢ p → r ≢ q → (rename_file p q d).1 r ≡ d r
unfolding rename_file
rename_file-keeps (in_output p) q r d ne ne' = rw (
  set_keeps q r (d (in_output p)) (set (in_output p) none d) ne',
  set_keeps (in_output p) r none d ne,
)
rename_file-keeps (in_stage p) q r d ne ne' = refl

rename_file-fails :
    (p q r : Place) (d : Disk) (e : OsError)
    → (rename_file p q d).0 ≡ some e
    → (rename_file p q d).1 r ≡ d r
unfolding rename_file
rename_file-fails (in_output p) q r d e h = absurd cc
rename_file-fails (in_stage p) q r d e h = refl

pub disk_calls-IsFileSystem : IsFileSystem disk_calls
disk_calls-IsFileSystem = record {
  create_empties = λ p d h. set_at p (some []) d;
  create_keeps = λ p q d ne. set_keeps p q (some []) d ne;
  fill_writes = λ p bytes d h h'. set_at p (some bytes) d;
  fill_keeps = λ p q bytes d ne. set_keeps p q (some bytes) d ne;
  remove_keeps = remove_file-keeps;
  mkdir_parents_keeps = λ p q d. refl;
  rename_moves = rename_file-moves;
  rename_keeps = rename_file-keeps;
  rename_fails = rename_file-fails;
}

abbrev pub a : FilePath
a = 97 ∷ []

abbrev pub b : FilePath
b = 98 ∷ []

abbrev pub c : FilePath
c = 99 ∷ []

abbrev pub e : FilePath
e = 101 ∷ []

abbrev pub f : FilePath
f = 102 ∷ []

unfoldable pub empty_disk : Disk
empty_disk p = none

unfoldable pub old_files : Disk
unfolding set empty_disk
old_files = set (in_output a) (some (1 ∷ [])) (
    set (in_output b) (some (2 ∷ []))
      (set (in_output c) (some (3 ∷ [])) (set (in_output f) (some (4 ∷ 5 ∷ 6 ∷ [])) empty_disk)))
