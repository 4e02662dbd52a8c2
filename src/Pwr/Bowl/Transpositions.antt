-- ===== src/Pwr/Bowl/Transpositions.antt =====
-- `applyTranspositions` of pwr/bowl/bowl_overlay.go: the old files that become new ones unchanged,
-- grouped by the old file. Go visits a map in an order of its own; the map is a list here, and what
-- stands in a loop over it visits the list that it is given.
pub mod Copies
pub mod Grouped
pub mod Visits
pub mod Seeds
pub mod CleanUp
pub mod Renamed
pub mod Fresh
pub mod Regroup
pub mod Keys
pub mod Whole
pub mod Grouping
pub mod Noted
mod Tests
use wharf.Base.{
  ℕ, zero, suc, ◌+◌, ◌/◌, ◌%◌, Bool, true, false, Option, none, some, List, [], ◌∷◌, ◌++◌, map,
  get_elem?, ◌==◌, ltb, bytes_equal, if◌then◌else◌,
}
use wharf.Pwr.Bowl.{FilePath, Transposition}
use wharf.Pwr.Bowl.Disk.{
  Place, in_output, in_stage, BowlError, index_out_of_range, Step, done, fail, ◌>>◌, for_each,
  MkdirBehavior, never, if_needed, FileSystem, copy, move,
}

pub record PathTranspo : Type 0 where
  pub target_path : FilePath
  pub output_path : FilePath

pub record Group : Type 0 where
  pub target_path : FilePath
  pub transpos : List PathTranspo

pub data TranspoBehavior : Type 0 where
  behavior_move behavior_copy : TranspoBehavior

-- `append` to the map's entry for the path
unfoldable pub add_transpo : PathTranspo → List Group → List Group
unfolding bytes_equal
add_transpo t [] = record { target_path = t.target_path; transpos = t ∷ [] } ∷ []
add_transpo t (g ∷ gs) =
    if bytes_equal g.target_path t.target_path
    then record g { transpos = g.transpos ++ (t ∷ []) } ∷ gs
    else g ∷ add_transpo t gs

-- The first loop; `none` is an index out of range.
unfoldable pub group_transpositions :
    List FilePath → List FilePath → List Transposition → List Group → Option (List Group)
unfolding add_transpo
group_transpositions target source [] gs = some gs
group_transpositions target source (t ∷ ts) gs = elim (get_elem? target t.target_index) [
  | none ↦ none
  | some target_path ↦ elim (get_elem? source t.source_index) [
    | none ↦ none
    | some output_path ↦
        group_transpositions target source ts
          (add_transpo (record { target_path = target_path; output_path = output_path }) gs)
  ]
]

-- `%d`, most significant digit first
unfoldable pub decimal : ℕ → ℕ → List ℕ
decimal zero n = []
decimal (suc fuel) n = elim (ltb n 10) [
  | true ↦ (48 + n) ∷ []
  | false ↦ decimal fuel (n / 10) ++ ((48 + n % 10) ∷ [])
]

-- `.butler-rename-`
abbrev pub rename_suffix : List ℕ
rename_suffix =
    46 ∷ 98 ∷ 117 ∷ 116 ∷ 108 ∷ 101 ∷ 114 ∷ 45 ∷ 114 ∷ 101 ∷ 110 ∷ 97 ∷ 109 ∷ 101 ∷ 45 ∷ []

unfoldable pub safe_path : FilePath → ℕ → FilePath
unfolding decimal
safe_path output_path seed = output_path ++ (rename_suffix ++ decimal (suc seed) seed)

unfoldable pub has_path : FilePath → List FilePath → Bool
unfolding bytes_equal
has_path path [] = false
has_path path (p ∷ ps) = if bytes_equal p path then true else has_path path ps

-- The second loop's variables, with the transpositions that it leaves in a group
pub record Renaming : Type 0 where
  pub seed : ℕ
  pub cleanup_renames : List PathTranspo
  pub transpos : List PathTranspo

module _ (is_target : FilePath → Bool) where
  -- `transpositions[transpo.OutputPath]` is a lookup of a key.
  unfoldable pub avoid_clash : PathTranspo → Renaming → Renaming
  unfolding bytes_equal safe_path
  avoid_clash t r = elim (bytes_equal t.target_path t.output_path) [
    | true ↦ record r { transpos = r.transpos ++ (t ∷ []) }
    | false ↦ elim (is_target t.output_path) [
      | false ↦ record r { transpos = r.transpos ++ (t ∷ []) }
      | true ↦
          let path = safe_path t.output_path (suc r.seed) in
          record {
            seed = suc r.seed;
            cleanup_renames =
                r.cleanup_renames
                ++ (record { target_path = path; output_path = t.output_path } ∷ []);
            transpos = r.transpos ++ (record t { output_path = path } ∷ []);
          }
    ]
  ]

  unfoldable pub avoid_clashes : List PathTranspo → Renaming → Renaming
  unfolding avoid_clash
  avoid_clashes [] r = r
  avoid_clashes (t ∷ ts) r = avoid_clashes ts (avoid_clash t r)

  unfoldable pub rename_clashes : List Group → ℕ → List PathTranspo → List Group × List PathTranspo
  unfolding avoid_clashes
  rename_clashes [] seed renames = ([], renames)
  rename_clashes (g ∷ gs) seed renames =
      let r =
        avoid_clashes g.transpos
          (record { seed = seed; cleanup_renames = renames; transpos = [] }) in
      let (gs', renames') = rename_clashes gs r.seed r.cleanup_renames in
      (record g { transpos = r.transpos } ∷ gs', renames')

abbrev pub behavior_of : (FilePath → Bool) → FilePath → TranspoBehavior
behavior_of has_overlay path = if has_overlay path then behavior_copy else behavior_move

-- The group's first transposition that leaves the file where it is, by its index
unfoldable pub find_noop : FilePath → ℕ → List PathTranspo → Option ℕ
unfolding bytes_equal
find_noop target_path i [] = none
find_noop target_path i (t ∷ ts) =
    if bytes_equal target_path t.output_path then some i else find_noop target_path (i + 1) ts

abbrev pub skipped_index : Option ℕ → ℕ
skipped_index none = 0
skipped_index (some i) = i

module _ {D : Type 0} (fs : FileSystem D) where
  unfoldable pub transfer : TranspoBehavior → FilePath → FilePath → Step D
  transfer behavior_copy old new = copy fs (in_output old) (in_output new) never
  transfer behavior_move old new = move fs (in_output old) (in_output new)

  -- The copies: of all but the transposition at the given index
  unfoldable pub copy_others : FilePath → ℕ → ℕ → List PathTranspo → Step D
  copy_others target_path skipped i [] d = (none, d)
  copy_others target_path skipped i (t ∷ ts) d = elim (i == skipped) [
    | true ↦ copy_others target_path skipped (i + 1) ts d
    | false ↦
        (copy fs (in_output target_path) (in_output t.output_path) if_needed
            >> copy_others target_path skipped (i + 1) ts)
          d
  ]

  unfoldable pub finish_group : TranspoBehavior → FilePath → List PathTranspo → Option ℕ → Step D
  unfolding transfer
  finish_group behavior target_path ts (some i) d = (none, d)
  finish_group behavior target_path [] none d = (some index_out_of_range, d)
  finish_group behavior target_path (t ∷ ts) none d = transfer behavior target_path t.output_path d

  unfoldable pub apply_multiple_transpositions :
      TranspoBehavior → FilePath → List PathTranspo → Step D
  unfolding find_noop copy_others finish_group
  apply_multiple_transpositions behavior target_path ts =
      let noop = find_noop target_path 0 ts in
      copy_others target_path (skipped_index noop) 0 ts >> finish_group behavior target_path ts noop

  unfoldable pub apply_group : TranspoBehavior → Group → Step D
  unfolding apply_multiple_transpositions transfer bytes_equal
  apply_group behavior g d = elim g.transpos [
    | [] ↦ apply_multiple_transpositions behavior g.target_path [] d
    | t ∷ ts ↦ elim ts [
      | [] ↦ elim (bytes_equal t.target_path t.output_path) [
        | true ↦ (none, d)
        | false ↦ transfer behavior t.target_path t.output_path d
      ]
      | t' ∷ ts' ↦ apply_multiple_transpositions behavior g.target_path (t ∷ t' ∷ ts') d
    ]
  ]

  -- The loop over the groups, with the paths that are `alreadyDone`
  unfoldable pub apply_groups : (FilePath → Bool) → List Group → List FilePath → Step D
  unfolding apply_group has_path
  apply_groups has_overlay [] already d = (none, d)
  apply_groups has_overlay (g ∷ gs) already d = elim (has_path g.target_path already) [
    | true ↦ apply_groups has_overlay gs already d
    | false ↦
        (apply_group (behavior_of has_overlay g.target_path) g
            >> apply_groups has_overlay gs (g.target_path ∷ already))
          d
  ]

  unfoldable pub clean_up : PathTranspo → Step D
  clean_up r = move fs (in_output r.target_path) (in_output r.output_path)

  -- `visit` and `visit'` give the orders of the two loops over the map.
  unfoldable pub apply_transpositions :
      (List Group → List Group)
      → (List Group → List Group)
      → (FilePath → Bool)
      → Option (List Group)
      → Step D
  unfolding rename_clashes apply_groups clean_up has_path
  apply_transpositions visit visit' has_overlay none = fail index_out_of_range
  apply_transpositions visit visit' has_overlay (some gs) =
      let is_target = λ (p : FilePath). has_path p (map (λ (g : Group). g.target_path) gs) in
      let (gs', renames) = rename_clashes is_target (visit gs) 0 [] in
      apply_groups has_overlay (visit' gs') [] >> for_each clean_up renames
