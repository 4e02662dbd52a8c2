-- ===== src/Pwr/Bowl/Transpositions/Tests.antt =====
-- Runs of `applyTranspositions` (pwr/bowl/bowl_overlay.go).
use wharf.Base.{
  ℕ, zero, suc, get_elem?, ◌≢◌, ◌+◌, ◌<◌, Bool, false, Option, some, List, [], ◌∷◌, ◌++◌, length,
  length-append, All, AllPairs, Permᴰ, ◌≡◌, refl, ap, ◌∙◌, arith, bytes_equal,
}
use mathlib.Core.Path.{subst}
use mathlib.Core.List.Permᴰ
use wharf.Pwr.Bowl.{FilePath, Transposition}
use wharf.Pwr.Bowl.Disk.{in_output, move, copy}
use wharf.Pwr.Bowl.Transpositions.{
  Group, safe_path, decimal, rename_suffix, apply_transpositions, group_transpositions,
}
use wharf.Pwr.Bowl.Transpositions.Grouped.{differs}
use wharf.Pwr.Bowl.Transpositions.Renamed.{Plain}
use wharf.Pwr.Bowl.Transpositions.Noted.{HasPaths, Done, apply_transpositions-Done}
use wharf.Pwr.Bowl.Memory.{
  a, b, c, e, empty_disk, old_files, Disk, set, remove_file, rename_file, disk_calls,
  disk_calls-IsFileSystem,
}

-- The old files swap their names, and the third stays and is copied.
abbrev groups : List Group
groups =
    record { target_path = a; transpos = record { target_path = a; output_path = b } ∷ [] }
    ∷ record { target_path = b; transpos = record { target_path = b; output_path = a } ∷ [] }
    ∷ record {
      target_path = c;
      transpos =
          record { target_path = c; output_path = c }
          ∷ record { target_path = c; output_path = e }
          ∷ [];
    }
    ∷ []

abbrev swap_first : List Group → List Group
swap_first [] = []
swap_first (g ∷ []) = g ∷ []
swap_first (g ∷ g' ∷ gs) = g' ∷ g ∷ gs

swap_first-perm : (l : List Group) → Permᴰ l (swap_first l)
swap_first-perm [] = Permᴰ.nil
swap_first-perm (g ∷ []) = Permᴰ.refl (g ∷ [])
swap_first-perm (g ∷ g' ∷ gs) = Permᴰ.swap refl refl

length-safe_path :
    (o : FilePath) (n : ℕ) → length (safe_path o n) ≡ length o + (15 + length (decimal (suc n) n))
unfolding safe_path
length-safe_path o n =
    length-append o (rename_suffix ++ decimal (suc n) n)
    ∙ ap (λ x. length o + x) (length-append rename_suffix (decimal (suc n) n))

short-Plain : (p : FilePath) → length p < 15 → Plain p
short-Plain p h o n eq = absurd (omega (arith, h, ap length eq, length-safe_path o n))

abbrev has_overlay : FilePath → Bool
has_overlay p = false

abbrev run : Option (List Group) → Disk → Disk
run gs d = (apply_transpositions disk_calls (λ l. l) swap_first has_overlay gs d).1

swapped :
    (run (some groups) old_files (in_output a) ≡ some (2 ∷ []))
    × (run (some groups) old_files (in_output b) ≡ some (1 ∷ []))
    × (run (some groups) old_files (in_output c) ≡ some (3 ∷ []))
    × (run (some groups) old_files (in_output e) ≡ some (3 ∷ []))
unfolding apply_transpositions move copy old_files empty_disk set remove_file rename_file
swapped = (refl, refl, refl, refl)

get_elem?-All :
    (P : FilePath → Type 0) (ps : List FilePath) (i : ℕ) (p : FilePath)
    → All P ps
    → get_elem? ps i ≡ some p
    → P p
get_elem?-All P [] i p h e = absurd cc
get_elem?-All P (q ∷ ps) zero p h e = subst P (cc) h.0
get_elem?-All P (q ∷ ps) (suc i) p h e = get_elem?-All P ps i p h.1 e

get_elem?-own :
    (ps : List FilePath) (i j : ℕ) (p : FilePath)
    → AllPairs (λ q r. q ≢ r) ps
    → get_elem? ps i ≡ some p
    → get_elem? ps j ≡ some p
    → i ≡ j
get_elem?-own [] i j p h e e' = absurd cc
get_elem?-own (q ∷ ps) zero zero p h e e' = refl
get_elem?-own (q ∷ ps) zero (suc j) p h e e' =
    absurd (get_elem?-All (λ r. q ≢ r) ps j p h.0 e' (cc))
get_elem?-own (q ∷ ps) (suc i) zero p h e e' = absurd (get_elem?-All (λ r. q ≢ r) ps i p h.0 e (cc))
get_elem?-own (q ∷ ps) (suc i) (suc j) p h e e' = ap suc (get_elem?-own ps i j p h.1 e e')

short-HasPaths :
    (ps : List FilePath) → AllPairs (λ q r. q ≢ r) ps → All (λ p. length p < 15) ps → HasPaths ps
short-HasPaths ps h h' = record {
  own = λ i j p. get_elem?-own ps i j p h;
  plain = λ i p e. short-Plain p (get_elem?-All (λ q. length q < 15) ps i p h' e);
}

abbrev old_paths : List FilePath
old_paths = a ∷ b ∷ c ∷ []

abbrev new_paths : List FilePath
new_paths = b ∷ a ∷ c ∷ e ∷ []

old_paths-HasPaths : HasPaths old_paths
unfolding bytes_equal
old_paths-HasPaths =
    short-HasPaths old_paths
      ((differs a b refl, (differs a c refl, tt)), ((differs b c refl, tt), (tt, tt)))
      (omega arith, (omega arith, (omega arith, tt)))

new_paths-HasPaths : HasPaths new_paths
unfolding bytes_equal
new_paths-HasPaths =
    short-HasPaths new_paths
      (
        (differs b a refl, (differs b c refl, (differs b e refl, tt))),
        ((differs a c refl, (differs a e refl, tt)), ((differs c e refl, tt), (tt, tt))),
      )
      (omega arith, (omega arith, (omega arith, (omega arith, tt))))

-- The old files swap their names, and the third stays and is copied.
abbrev transpositions : List Transposition
transpositions =
    record { target_index = 0; source_index = 0 }
    ∷ record { target_index = 1; source_index = 1 }
    ∷ record { target_index = 2; source_index = 2 }
    ∷ record { target_index = 2; source_index = 3 }
    ∷ []

transpositions_grouped : group_transpositions old_paths new_paths transpositions [] ≡ some groups
unfolding group_transpositions bytes_equal
transpositions_grouped = refl

abbrev noted : Option (List Group)
noted = group_transpositions old_paths new_paths transpositions []

apply_transpositions-Done_example :
    All
      (Done disk_calls disk_calls-IsFileSystem has_overlay old_paths new_paths old_files
        (run noted old_files))
      transpositions
unfolding apply_transpositions group_transpositions move copy old_files empty_disk set remove_file
    rename_file
apply_transpositions-Done_example =
    apply_transpositions-Done disk_calls disk_calls-IsFileSystem has_overlay old_paths new_paths
      (λ l. l) swap_first transpositions old_files (λ l. Permᴰ.refl l) swap_first-perm
      old_paths-HasPaths new_paths-HasPaths
      (
        ((λ x. absurd cc), ((λ x. absurd cc), ((λ x. absurd cc), tt))),
        (((λ x. absurd cc), ((λ x. absurd cc), tt)), (((λ x. absurd cc), tt), (tt, tt))),
      )
      refl
