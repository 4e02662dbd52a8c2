-- ===== src/Pwr/Bowl/Ghosts/Detect.antt =====
-- What `detectGhosts` (pwr/bowl/bowl_overlay.go) finds.
use wharf.Base.{
  Bool, true, false, ◌&&◌, ◌||◌, not, List, [], ◌∷◌, ◌++◌, map, ◌≡◌, refl, sym, ◌∙◌, ap, ap₂,
  Bool-cases, inl, inr, arith, bytes_equal, bytes_equal→eq,
}
use mathlib.Core.Path.{subst}
use wharf.Pwr.Bowl.{FilePath, Container}
use wharf.Pwr.Bowl.Transpositions.{has_path}
use wharf.Pwr.Bowl.Ghosts.{
  GhostKind, ghost_file, ghost_symlink, ghost_dir, Ghost, link_paths, all_paths, missing,
  detect_ghosts,
}

abbrev pub ghost_paths : List Ghost → List FilePath
ghost_paths gs = map (λ (g : Ghost). g.path) gs

has_path-append :
    (p : FilePath) (xs ys : List FilePath)
    → has_path p (xs ++ ys) ≡ (has_path p xs || has_path p ys)
unfolding has_path
has_path-append p [] ys = refl
has_path-append p (x ∷ xs) ys = elim (Bool-cases (bytes_equal x p)) [
  | inl e ↦ rw (has_path, e)
  | inr e ↦ rw (has_path, e) (has_path-append p xs ys)
]

ghost_paths-append :
    (gs hs : List Ghost) → ghost_paths (gs ++ hs) ≡ ghost_paths gs ++ ghost_paths hs
ghost_paths-append [] hs = refl
ghost_paths-append (g ∷ gs) hs = ap (λ x. g.path ∷ x) (ghost_paths-append gs hs)

hidden : (a s : Bool) → s ≡ true → (a && not s) ≡ not s
hidden a true h = ground arith
hidden a false h = absurd cc

same_path :
    (q p : FilePath) (source : List FilePath) (b : Bool)
    → bytes_equal q p ≡ true
    → has_path q source ≡ b
    → has_path p source ≡ b
same_path q p source b e h = subst (λ x. has_path x source ≡ b) (bytes_equal→eq q p e) h

missing-has_path :
    (kind : GhostKind) (source ps : List FilePath) (p : FilePath)
    → has_path p (ghost_paths (missing kind source ps)) ≡ (has_path p ps && not (has_path p source))
unfolding missing has_path
missing-has_path kind source [] p = refl
missing-has_path kind source (q ∷ ps) p = elim (Bool-cases (has_path q source)) [
  | inl e ↦ elim (Bool-cases (bytes_equal q p)) [
    | inl e' ↦
        rw (missing, has_path, e, e')
          (missing-has_path kind source ps p
            ∙ hidden (has_path p ps) (has_path p source) (same_path q p source true e' e))
    | inr e' ↦ rw (missing, has_path, e, e') (missing-has_path kind source ps p)
  ]
  | inr e ↦ elim (Bool-cases (bytes_equal q p)) [
    | inl e' ↦ rw (missing, has_path, e, e') (sym (ap not (same_path q p source false e' e)))
    | inr e' ↦ rw (missing, has_path, e, e') (missing-has_path kind source ps p)
  ]
]

distribute : (a b c d : Bool) → ((a && d) || ((b && d) || (c && d))) ≡ ((a || (b || c)) && d)
distribute a b c true = ground arith
distribute a b c false = ground arith

-- A path is a ghost's if and only if an entry of the old container has it and no entry of the new
-- one, a file, a folder or a symbolic link, has it.
pub detect_ghosts-has_path :
    (source target : Container) (p : FilePath)
    → has_path p (ghost_paths (detect_ghosts source target))
      ≡ (has_path p (all_paths target) && not (has_path p (all_paths source)))
unfolding detect_ghosts
detect_ghosts-has_path source target p =
    let src = all_paths source in
    let files = missing ghost_file src target.files in
    let links = missing ghost_symlink src (link_paths target) in
    let dirs = missing ghost_dir src target.dirs in
    let found = not (has_path p src) in
    ap (has_path p) (ghost_paths-append files (links ++ dirs))
    ∙ has_path-append p (ghost_paths files) (ghost_paths (links ++ dirs))
    ∙ ap₂ ◌||◌ (missing-has_path ghost_file src target.files p) (
        ap (has_path p) (ghost_paths-append links dirs)
        ∙ has_path-append p (ghost_paths links) (ghost_paths dirs)
        ∙ ap₂ ◌||◌ (missing-has_path ghost_symlink src (link_paths target) p)
            (missing-has_path ghost_dir src target.dirs p))
    ∙ distribute (has_path p target.files) (has_path p (link_paths target)) (has_path p target.dirs)
        found
    ∙ ap (λ b. b && found)
        (sym (
          has_path-append p target.files (link_paths target ++ target.dirs)
          ∙ ap (λ b. has_path p target.files || b)
              (has_path-append p (link_paths target) target.dirs)))
