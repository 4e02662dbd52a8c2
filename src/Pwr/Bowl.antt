-- ===== src/Pwr/Bowl.antt =====
-- pwr/bowl/bowl_overlay.go: the bookkeeping of `overlayBowl`, which patches a folder in place.
-- While a patch is applied, the bowl notes what `Commit` has to do: which old files become which
-- new ones, which new files wait in the staging folder, and which overlays.
pub mod Marks
pub mod Disk
pub mod Commit
pub mod Transpositions
pub mod Ghosts
pub mod Memory
mod Tests
use wharf.Base.{
  ℕ, zero, suc, ◌+◌, Bool, true, false, Option, none, some, List, [], ◌∷◌, ◌++◌, get_elem?, ◌==◌,
  bytes_equal, if◌then◌else◌,
}

-- A path in a container, with slashes
abbrev pub FilePath : Type 0
FilePath = List ℕ

-- `tlc.Symlink`
pub record Symlink : Type 0 where
  pub path : FilePath
  pub dest : FilePath

-- `tlc.Container`, its entries without modes and sizes
pub record Container : Type 0 where
  pub files : List FilePath
  pub dirs : List FilePath
  pub symlinks : List Symlink

pub record Transposition : Type 0 where
  pub target_index : ℕ
  pub source_index : ℕ

-- The fields of `overlayBowl` that change while a patch is applied
pub record OverlayBowl : Type 0 where
  pub transpositions : List Transposition
  pub overlay_files : List ℕ
  pub move_files : List ℕ

-- `OverlayBowlCheckpoint`
pub record OverlayBowlCheckpoint : Type 0 where
  pub move_files : List ℕ
  pub overlay_files : List ℕ
  pub transpositions : List Transposition

-- `BowlCheckpoint`: the data of an overlay bowl's checkpoint, or of another bowl's.
pub data BowlCheckpoint : Type 0 where
  overlay_data : OverlayBowlCheckpoint → BowlCheckpoint
  other_data : BowlCheckpoint

-- `NewOverlayBowl`: the map from a path to the index of the last file that has it
pub target_files_by_path : List FilePath → ℕ → FilePath → Option ℕ
unfolding bytes_equal
target_files_by_path [] index path = none
target_files_by_path (p ∷ ps) index path = elim (target_files_by_path ps (index + 1) path) [
  | some i ↦ some i
  | none ↦ if bytes_equal p path then some index else none
]

unfoldable pub new_overlay_bowl : OverlayBowl
new_overlay_bowl = record { transpositions = []; overlay_files = []; move_files = [] }

-- The code's checkpoint shares its slices with the bowl, and a later `Transpose` for a source that
-- is noted already changes it too; the model's is what the slices hold at the call, which is what
-- is kept where the checkpoint is written out at once.
unfoldable pub save : OverlayBowl → BowlCheckpoint
save b = overlay_data (record {
  move_files = b.move_files;
  overlay_files = b.overlay_files;
  transpositions = b.transpositions;
})

unfoldable pub resume : Option BowlCheckpoint → OverlayBowl → OverlayBowl
resume none b = b
resume (some other_data) b = b
resume (some (overlay_data cc)) b = record {
  transpositions = cc.transpositions;
  overlay_files = cc.overlay_files;
  move_files = cc.move_files;
}

-- The loop of `markOverlay` and `markMove`, with the append behind it
unfoldable pub mark : ℕ → List ℕ → List ℕ
mark i [] = i ∷ []
mark i (j ∷ js) = if j == i then j ∷ js else j ∷ mark i js

unfoldable pub mark_overlay : ℕ → OverlayBowl → OverlayBowl
unfolding mark
mark_overlay i b = record b { overlay_files = mark i b.overlay_files }

unfoldable pub mark_move : ℕ → OverlayBowl → OverlayBowl
unfolding mark
mark_move i b = record b { move_files = mark i b.move_files }

unfoldable pub replace_or_append : Transposition → List Transposition → List Transposition
replace_or_append t [] = t ∷ []
replace_or_append t (tt' ∷ ts) =
    if tt'.source_index == t.source_index then t ∷ ts else tt' ∷ replace_or_append t ts

unfoldable pub transpose : Transposition → OverlayBowl → OverlayBowl
unfolding replace_or_append
transpose t b = record b { transpositions = replace_or_append t b.transpositions }

-- What `GetWriter` returns: an `overlayEntryWriter` over a file of the target, or a
-- `freshEntryWriter`, each for a file of the staging folder.
pub data EntryWriter : Type 0 where
  overlay_entry_writer : ℕ → ℕ → EntryWriter
  fresh_entry_writer : ℕ → EntryWriter

pub data GetWriterError : Type 0 where
  index_out_of_range target_pool_failed : GetWriterError

pub data GetWriterResult : Type 0 where
  failed : GetWriterError → GetWriterResult
  writer : EntryWriter → GetWriterResult

-- The calls of phase 1
pub data BowlCall : Type 0 where
  call_get_writer : ℕ → BowlCall
  call_transpose : Transposition → BowlCall

-- `opens` tells if the target's pool gives a reader of the file.
module _ (source target : Container) (opens : ℕ → Bool) where
  unfoldable pub get_writer : ℕ → OverlayBowl → GetWriterResult × OverlayBowl
  unfolding target_files_by_path mark_overlay mark_move
  get_writer i b = elim (get_elem? source.files i) [
    | none ↦ (failed index_out_of_range, b)
    | some path ↦ elim (target_files_by_path target.files 0 path) [
      | some target_index ↦
          if opens target_index
          then (writer (overlay_entry_writer target_index i), mark_overlay i b)
          else (failed target_pool_failed, mark_overlay i b)
      | none ↦ (writer (fresh_entry_writer i), mark_move i b)
    ]
  ]

  unfoldable pub run_call : BowlCall → OverlayBowl → OverlayBowl
  unfolding get_writer transpose
  run_call (call_get_writer i) b = (get_writer i b).1
  run_call (call_transpose t) b = transpose t b

  unfoldable pub run_calls : List BowlCall → OverlayBowl → OverlayBowl
  unfolding run_call
  run_calls [] b = b
  run_calls (c ∷ cs) b = run_calls cs (run_call c b)
