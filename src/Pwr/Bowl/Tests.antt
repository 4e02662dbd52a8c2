-- ===== src/Pwr/Bowl/Tests.antt =====
-- Runs of the overlay bowl (pwr/bowl/bowl_overlay.go).
use wharf.Base.{
  ℕ, Bool, true, false, ◌&&◌, not, none, some, List, [], ◌∷◌, AllPairs, Permᴰ, ◌≡◌, refl,
  bytes_equal,
}
use wharf.Pwr.Overlay.{skip, fresh, hey_you_did_it, Record, magic, header, op, overlay_magic, patch}
use wharf.Pwr.Bowl.{
  Container, OverlayBowl, BowlCall, call_get_writer, call_transpose, new_overlay_bowl, run_calls,
  save, resume,
}
use wharf.Pwr.Bowl.Marks.{IsMarked, run_calls-IsMarked}
use wharf.Pwr.Bowl.Disk.{in_output, in_stage, move, copy}
use wharf.Pwr.Bowl.Disk.Moves.{Moved, move-Moved}
use wharf.Pwr.Bowl.Transpositions.{has_path}
use wharf.Pwr.Bowl.Ghosts.{detect_ghosts, sort, Ghost, ghost_file, ghost_dir, all_paths}
use wharf.Pwr.Bowl.Ghosts.Order.{Inside, sort-Inside_first}
use wharf.Pwr.Bowl.Ghosts.Detect.{ghost_paths, detect_ghosts-has_path}
use wharf.Pwr.Bowl.Commit.{Machine, commit}
use wharf.Pwr.Bowl.Memory.{
  a, b, c, e, f, empty_disk, old_files, Disk, set, remove_file, rename_file, disk_calls,
  disk_calls-IsFileSystem,
}

move-Moved_example :
    Moved disk_calls
      (in_stage a)
      (in_output a)
      (set (in_stage a) (some (9 ∷ [])) old_files)
      (move disk_calls (in_stage a) (in_output a) (set (in_stage a) (some (9 ∷ [])) old_files)).1
unfolding move copy old_files empty_disk set remove_file rename_file
move-Moved_example =
    move-Moved disk_calls disk_calls-IsFileSystem (in_stage a) (in_output a) (λ x. absurd cc)
      (set (in_stage a) (some (9 ∷ [])) old_files) refl

abbrev target : Container
target = record { files = a ∷ b ∷ c ∷ f ∷ []; dirs = (100 ∷ []) ∷ []; symlinks = [] }

abbrev source : Container
source = record { files = a ∷ b ∷ e ∷ f ∷ []; dirs = []; symlinks = [] }

abbrev opens : ℕ → Bool
opens i = true

abbrev calls : List BowlCall
calls =
    call_transpose (record { target_index = 1; source_index = 0 })
    ∷ call_transpose (record { target_index = 0; source_index = 1 })
    ∷ call_get_writer 2
    ∷ call_get_writer 3
    ∷ []

abbrev marked : OverlayBowl
marked = record {
  transpositions =
      record { target_index = 1; source_index = 0 }
      ∷ record { target_index = 0; source_index = 1 }
      ∷ [];
  overlay_files = 3 ∷ [];
  move_files = 2 ∷ [];
}

-- The calls come again, as behind a patch that is resumed.
calls_run :
    run_calls source target opens calls (run_calls source target opens calls new_overlay_bowl)
    ≡ marked
unfolding run_calls new_overlay_bowl bytes_equal
calls_run = refl

new_overlay_bowl-IsMarked : IsMarked source target opens new_overlay_bowl
unfolding new_overlay_bowl
new_overlay_bowl-IsMarked = record {
  overlays_once = tt;
  moves_once = tt;
  sources_once = tt;
  overlaid = tt;
  new = tt;
}

run_calls-IsMarked_example :
    IsMarked source target opens (run_calls source target opens calls new_overlay_bowl)
run_calls-IsMarked_example =
    run_calls-IsMarked source target opens calls new_overlay_bowl new_overlay_bowl-IsMarked

-- What a bowl saves is what a resumed one goes on with.
saved_marks : resume (some (save marked)) new_overlay_bowl ≡ marked
unfolding resume save
saved_marks = refl

detect_ghosts-has_path_example :
    has_path c (ghost_paths (detect_ghosts source target))
    ≡ (has_path c (all_paths target) && not (has_path c (all_paths source)))
detect_ghosts-has_path_example = detect_ghosts-has_path source target c

abbrev ghosts : List Ghost
ghosts =
    record { kind = ghost_dir; path = 100 ∷ [] }
    ∷ record { kind = ghost_file; path = 100 ∷ 47 ∷ 97 ∷ [] }
    ∷ []

ghosts_sorted :
    sort ghosts
    ≡ record { kind = ghost_file; path = 100 ∷ 47 ∷ 97 ∷ [] }
      ∷ record { kind = ghost_dir; path = 100 ∷ [] }
      ∷ []
unfolding sort
ghosts_sorted = refl

sort-Inside_first_example :
    Permᴰ ghosts (sort ghosts) × AllPairs (λ g h. Inside h g → ⊥) (sort ghosts)
sort-Inside_first_example = sort-Inside_first ghosts

-- An overlay of the file `f` in the staging folder, and a new file `e`
abbrev overlay : List Record
overlay = magic overlay_magic ∷ header ∷ op (skip 1) ∷ op (fresh (8 ∷ [])) ∷ op hey_you_did_it ∷ []

unfoldable staged_files : Disk
unfolding set old_files
staged_files = set (in_stage e) (some (7 ∷ [])) (set (in_stage f) (some (0 ∷ [])) old_files)

abbrev machine : Machine Disk
machine = record {
  fs = disk_calls;
  case_insensitive = false;
  fix_existing_case = λ d. (none, d, []);
  close_target_pool = λ d. (none, d);
  close_stage_pool = λ d. (none, d);
  read_overlay = λ bytes. overlay;
  open_output = λ p d. (none, d);
  store = λ p bytes d. (none, set p (some bytes) d);
  works = λ t o. true;
  visit = λ l. l;
  visit_again = λ l. l;
}

abbrev committed : Disk
committed = (commit machine marked source target staged_files).1

commit_runs :
    ((commit machine marked source target staged_files).0 ≡ none)
    × (committed (in_output a) ≡ some (2 ∷ []))
    × (committed (in_output b) ≡ some (1 ∷ []))
    × (committed (in_output c) ≡ none)
    × (committed (in_output e) ≡ some (7 ∷ []))
    × (committed (in_output f) ≡ some (4 ∷ 8 ∷ []))
unfolding commit move copy staged_files empty_disk set remove_file rename_file patch
commit_runs = (refl, refl, refl, refl, refl, refl)
