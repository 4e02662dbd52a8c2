-- ===== src/Pwr/Bowl/Commit.antt =====
-- `Commit` of pwr/bowl/bowl_overlay.go, and its steps but for the transpositions and the ghosts.
use wharf.Base.{
  ℕ, Bool, true, false, Option, none, some, List, [], ◌∷◌, map, take, get_elem?, inl, inr,
  bytes_equal, if◌then◌else◌,
}
use wharf.Pwr.Overlay.{OverlayOp, Record, Target, patch}
use wharf.Pwr.Bowl.{FilePath, Symlink, Container, OverlayBowl}
use wharf.Pwr.Bowl.Disk.{
  Place, in_output, in_stage, OsError, not_exist, other_error, os_failed, patch_failed,
  index_out_of_range, Step, fail, ◌>>◌, os, for_each, FileKind, dir_kind, symlink_kind, FileSystem,
  move,
}
use wharf.Pwr.Bowl.Transpositions.{Group, group_transpositions, apply_transpositions, has_path}
use wharf.Pwr.Bowl.Ghosts.{delete_ghosts}

-- `case_insensitive` and `fix_existing_case` are those of the package lake: the second gives, for
-- every fix that it made on disk, what it makes of a path. `read_overlay` reads the messages of an
-- overlay file, `open_output` opens a file to be patched, and `store` holds what was written.
pub record Machine (D : Type 0) : Type 0 where
  pub fs : FileSystem D
  pub case_insensitive : Bool
  pub fix_existing_case : D → Option OsError × D × List (FilePath → Option FilePath)
  pub close_target_pool : D → Option OsError × D
  pub close_stage_pool : D → Option OsError × D
  pub read_overlay : List ℕ → List Record
  pub open_output : Place → D → Option OsError × D
  pub store : Place → List ℕ → D → Option OsError × D
  pub works : Target → OverlayOp → Bool
  pub visit : List Group → List Group
  pub visit_again : List Group → List Group

unfoldable pub apply_fix : (FilePath → Option FilePath) → FilePath → FilePath
apply_fix fix path = elim (fix path) [ none ↦ path | some path' ↦ path' ]

unfoldable pub fix_container : List (FilePath → Option FilePath) → Container → Container
unfolding apply_fix
fix_container [] c = c
fix_container (fix ∷ fixes) c = fix_container fixes (record {
  files = map (apply_fix fix) c.files;
  dirs = map (apply_fix fix) c.dirs;
  symlinks = map (λ (s : Symlink). record s { path = apply_fix fix s.path }) c.symlinks;
})

abbrev is_dir : FileKind → Bool
is_dir dir_kind = true
is_dir _ = false

abbrev is_symlink : FileKind → Bool
is_symlink symlink_kind = true
is_symlink _ = false

module _ {D : Type 0} (m : Machine D) where
  -- `processDir`
  unfoldable pub process_dir : FilePath → Step D
  process_dir path d =
      let p = in_output path in
      elim (m.fs.lstat p d) [
        | none ↦ os (m.fs.mkdir_all p) d
        | some kind ↦ elim (is_dir kind) [
          | true ↦ (none, d)
          | false ↦ (os (m.fs.remove_all p) >> os (m.fs.mkdir_all p)) d
        ]
      ]

  -- `processSymlink`, behind its first test
  unfoldable pub point_symlink : Symlink → Step D
  unfolding bytes_equal
  point_symlink s d =
      let p = in_output s.path in
      elim (m.fs.readlink p d) [
        | inl e ↦ elim e [
          | not_exist ↦ os (m.fs.symlink s.dest p) d
          | other_error ↦ (some (os_failed other_error), d)
        ]
        | inr dest ↦ elim (bytes_equal dest s.dest) [
          | true ↦ (none, d)
          | false ↦ (os (m.fs.remove p) >> os (m.fs.symlink s.dest p)) d
        ]
      ]

  unfoldable pub process_symlink : Symlink → Step D
  unfolding point_symlink
  process_symlink s d =
      let p = in_output s.path in
      elim (m.fs.lstat p d) [
        | none ↦ point_symlink s d
        | some kind ↦ elim (is_symlink kind) [
          | true ↦ point_symlink s d
          | false ↦ (os (m.fs.remove_all p) >> point_symlink s) d
        ]
      ]

  unfoldable pub ensure_dirs_and_symlinks : Container → Step D
  unfolding process_dir process_symlink
  ensure_dirs_and_symlinks source =
      for_each process_dir source.dirs >> for_each process_symlink source.symlinks

  -- The body of the loop in `applyMoves`
  unfoldable pub apply_move : Container → ℕ → Step D
  apply_move source i d = elim (get_elem? source.files i) [
    | none ↦ (some index_out_of_range, d)
    | some path ↦ move m.fs (in_stage path) (in_output path) d
  ]

  unfoldable pub apply_moves : Container → List ℕ → Step D
  unfolding apply_move
  apply_moves source = for_each (apply_move source)

  -- `handleOverlay` from the patch on: what was written stays, up to the position reached if the
  -- patch goes through.
  unfoldable pub patch_output : Place → List Record → List ℕ → Step D
  unfolding patch
  patch_output p records content d =
      let r = patch m.works records (record { content = content; pos = 0 }) in
      elim r.0 [
        | some e ↦ (os (m.store p r.1.content) >> fail patch_failed) d
        | none ↦ os (m.store p (take r.1.pos r.1.content)) d
      ]

  unfoldable pub patch_opened : Place → List Record → Step D
  unfolding patch_output
  patch_opened p records d = elim (m.fs.read p d) [
    | none ↦ (some (os_failed other_error), d)
    | some content ↦ patch_output p records content d
  ]

  unfoldable pub handle_overlay : Container → ℕ → Step D
  unfolding patch_opened
  handle_overlay source i d = elim (get_elem? source.files i) [
    | none ↦ (some index_out_of_range, d)
    | some path ↦ elim (m.fs.read (in_stage path) d) [
      | none ↦ (some (os_failed not_exist), d)
      | some bytes ↦
          (os (m.open_output (in_output path))
              >> patch_opened (in_output path) (m.read_overlay bytes))
            d
    ]
  ]

  unfoldable pub apply_overlays : Container → List ℕ → Step D
  unfolding handle_overlay
  apply_overlays source = for_each (handle_overlay source)

  -- `overlayFilesByPath`; an index that is out of range panics.
  unfoldable pub paths_of : Container → List ℕ → Option (List FilePath)
  paths_of source [] = some []
  paths_of source (i ∷ is) = elim (get_elem? source.files i) [
    | none ↦ none
    | some p ↦ elim (paths_of source is) [ none ↦ none | some ps ↦ some (p ∷ ps) ]
  ]

  -- `Commit` from the directories on
  unfoldable pub commit_files : OverlayBowl → Container → Container → Step D
  unfolding ensure_dirs_and_symlinks apply_transpositions group_transpositions has_path apply_moves
      apply_overlays paths_of delete_ghosts
  commit_files b source target =
      ensure_dirs_and_symlinks source
      >> elim (paths_of source b.overlay_files) [
        | none ↦ fail index_out_of_range
        | some overlays ↦
            apply_transpositions m.fs m.visit m.visit_again (λ p. has_path p overlays)
              (group_transpositions target.files source.files b.transpositions [])
      ]
      >> apply_moves source b.move_files
      >> apply_overlays source b.overlay_files
      >> delete_ghosts m.fs source target

  -- `fixExistingCase`, and the rest of `Commit` with the container that it leaves
  unfoldable pub fix_case_then : Container → (Container → Step D) → Step D
  unfolding fix_container
  fix_case_then target k d =
      let (e, d', fixes) = m.fix_existing_case d in
      elim e [ some x ↦ (some (os_failed x), d') | none ↦ k (fix_container fixes target) d' ]

  unfoldable pub commit : OverlayBowl → Container → Container → Step D
  unfolding fix_case_then commit_files
  commit b source target =
      os m.close_target_pool
      >> os m.close_stage_pool
      >> (if m.case_insensitive
          then fix_case_then target (commit_files b source)
          else commit_files b source target)

  -- `Close`
  unfoldable pub close : Step D
  close = os m.close_target_pool >> os m.close_stage_pool
