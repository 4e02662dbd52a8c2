-- ===== src/Pwr/Bowl/Transpositions/Whole.antt =====
-- `applyTranspositions` as a whole (pwr/bowl/bowl_overlay.go).
use wharf.Base.{
  ℕ, suc, Bool, true, false, some, List, [], ◌∷◌, Permᴰ, All, All-map, All-zip, All-perm, AllPairs,
  AllPairs-map, AllPairs-perm, ◌≡◌, ◌∙◌, refl, sym, ap, Bool-cases, inl, inr,
}
use mathlib.Core.Path.{subst}
use mathlib.Core.List.Permᴰ
use wharf.Pwr.Bowl.{FilePath}
use wharf.Pwr.Bowl.Disk.{in_output, ◌>>◌, for_each, FileSystem, IsFileSystem}
use wharf.Pwr.Bowl.Disk.Moves.{Ok, seq-Ok}
use wharf.Pwr.Bowl.Transpositions.{
  PathTranspo, Group, has_path, apply_groups, clean_up, apply_transpositions,
}
use wharf.Pwr.Bowl.Transpositions.Copies.{Distinct, Holds}
use wharf.Pwr.Bowl.Transpositions.Visits.{
  IsGroup, Apart, AllPlaced, GroupFilled, apply_groups-AllPlaced,
}
use wharf.Pwr.Bowl.Transpositions.CleanUp.{CleanedUp, clean_up-CleanedUp}
use wharf.Pwr.Bowl.Transpositions.Renamed.{
  Plain, all_transpos, clashes, renamed, renames, renamed_groups, all_transpos-renamed,
  rename_clashes-renamed,
}
use wharf.Pwr.Bowl.Transpositions.Fresh.{
  renamed-Distinct, renames-Clean, Unmoved, renames-Unmoved, Safe, renamed-Safe,
}
use wharf.Pwr.Bowl.Transpositions.Regroup.{
  Uniform, All-all_transpos, OtherTargets, all_transpos-All, IsNamed-AllPairs, KnownKey,
  renamed_groups-IsNamed, renamed_groups-AllPairs,
}
use wharf.Pwr.Bowl.Transpositions.Keys.{
  keys, IsGrouped, Separate, IsGrouped-perm, IsGrouped-Distinct, keys-has_path, has_path-nil,
  cross-flip,
}

module _ {D : Type 0} (fs : FileSystem D) where
  -- The new file holds what the old file held.
  abbrev pub Filled : D → D → PathTranspo → Type 0
  Filled d d' t = fs.read (in_output t.output_path) d' ≡ fs.read (in_output t.target_path) d

  GroupFilled-Filled :
      (d d' : D) (g : Group) → Uniform g → GroupFilled fs d d' g → All (Filled d d') g.transpos
  GroupFilled-Filled d d' g uniform h =
      All-zip (λ (t : PathTranspo). t.target_path ≡ g.target_path)
        (λ (t : PathTranspo). Holds fs g.target_path d d' t.output_path) (Filled d d') g.transpos
        (λ t u x. x ∙ ap (λ p. fs.read (in_output p) d) (sym u)) uniform h

  -- Behind the renames, each new file is in its place.
  renamed-Filled :
      (is_target : FilePath → Bool) (n : ℕ) (ts : List PathTranspo) (d d' d'' : D)
      → All (Filled d d') (renamed is_target n ts)
      → All (Filled d' d'') (renames is_target n ts)
      → All
          (λ (t : PathTranspo).
            clashes is_target t ≡ false
            → fs.read (in_output t.output_path) d'' ≡ fs.read (in_output t.output_path) d')
          ts
      → All (Filled d d'') ts
  renamed-Filled is_target n [] d d' d'' = λ a b c. tt
  renamed-Filled is_target n (t ∷ ts) d d' d'' = elim (Bool-cases (clashes is_target t)) [
    | inl e ↦
        rw (renamed, renames, e)
          (λ a b c. (b.0 ∙ a.0, renamed-Filled is_target (suc n) ts d d' d'' a.1 b.1 c.1))
    | inr e ↦
        rw (renamed, renames, e)
          (λ a b c. (c.0 refl ∙ a.0, renamed-Filled is_target n ts d d' d'' a.1 b c.1))
  ]

  AllPlaced-Filled :
      (gs gs' : List Group) (d d' : D)
      → Permᴰ gs gs'
      → All Uniform gs
      → AllPlaced fs gs' d d'
      → All (Filled d d') (all_transpos gs)
  AllPlaced-Filled gs gs' d d' perm uniform v = all_transpos-All (Filled d d') gs (
      All-zip Uniform (GroupFilled fs d d') (λ (g : Group). All (Filled d d') g.transpos) gs
        (λ g u h. GroupFilled-Filled d d' g u h) uniform
        (All-perm (GroupFilled fs d d') (Permᴰ.symm perm) v.filled))

-- The renamed groups do not get in each other's way.
renamed_groups-Apart :
    (is_target : FilePath → Bool) (gs : List Group)
    → IsGrouped gs
    → All (λ (g : Group). is_target g.target_path ≡ true) gs
    → All IsGroup (renamed_groups is_target 0 gs) × AllPairs Apart (renamed_groups is_target 0 gs)
renamed_groups-Apart is_target gs grouped targets =
    let ts = all_transpos gs in
    let back = sym (all_transpos-renamed is_target 0 gs) in
    IsNamed-AllPairs is_target (renamed_groups is_target 0 gs)
      (renamed_groups-IsNamed is_target 0 gs
        (All-map IsGroup Uniform gs (λ g v. v.uniform) grouped.groups)
        (All-zip (λ (g : Group). Plain g.target_path)
          (λ (g : Group). is_target g.target_path ≡ true) (KnownKey is_target) gs (λ g a b. (a, b))
          grouped.plain_keys targets)
        (subst (λ x. All (Safe is_target) x) back (renamed-Safe is_target 0 ts)))
      (renamed_groups-AllPairs is_target 0 gs
        (AllPairs-map Separate OtherTargets gs (λ g g' s. s.targets) grouped.separate))
      (subst Distinct back (
        renamed-Distinct is_target 0 ts (IsGrouped-Distinct gs grouped.groups grouped.separate)
          (all_transpos-All (λ (t : PathTranspo). Plain t.output_path) gs grouped.plain_outputs)))

Apart-flip : (g g' : Group) → Apart g g' → Apart g' g
Apart-flip g g' a = record {
  targets = λ e. a.targets (sym e);
  first = a.second;
  second = a.first;
  outputs = cross-flip g.transpos g'.transpos a.outputs;
}

module _ {D : Type 0} (fs : FileSystem D) (law : IsFileSystem fs) (has_overlay : FilePath → Bool)
    (is_target : FilePath → Bool) where
  -- Behind the last two loops
  placed-Filled :
      (gs : List Group) (visited : List Group) (d d' d'' : D)
      → Permᴰ (renamed_groups is_target 0 gs) visited
      → All IsGroup (renamed_groups is_target 0 gs)
      → IsGrouped gs
      → AllPlaced fs visited d d'
      → CleanedUp fs (renames is_target 0 (all_transpos gs)) d' d''
      → All (Filled fs d d'') (all_transpos gs)
  placed-Filled gs visited d d' d'' perm groups grouped v w =
      let ts = all_transpos gs in
      renamed-Filled fs is_target 0 ts d d' d''
        (subst (λ x. All (Filled fs d d') x) (all_transpos-renamed is_target 0 gs)
          (AllPlaced-Filled fs (renamed_groups is_target 0 gs) visited d d' perm
            (All-map IsGroup Uniform (renamed_groups is_target 0 gs) (λ g u. u.uniform) groups) v))
        w.moved
        (All-map (Unmoved is_target (renames is_target 0 ts))
          (λ (t : PathTranspo).
            clashes is_target t ≡ false
            → fs.read (in_output t.output_path) d'' ≡ fs.read (in_output t.output_path) d')
          ts (λ t u e. w.keeps t.output_path (u e))
          (renames-Unmoved is_target 0 ts (IsGrouped-Distinct gs grouped.groups grouped.separate)
            (all_transpos-All (λ (t : PathTranspo). Plain t.output_path) gs grouped.plain_outputs)))

  run_groups-Filled :
      (gs : List Group) (visited : List Group) (d : D)
      → Permᴰ (renamed_groups is_target 0 gs) visited
      → IsGrouped gs
      → All (λ (g : Group). is_target g.target_path ≡ true) gs
      → Ok
          (apply_groups fs has_overlay visited []
            >> for_each (clean_up fs) (renames is_target 0 (all_transpos gs)))
          d
          (λ d'. All (Filled fs d d') (all_transpos gs))
  run_groups-Filled gs visited d perm grouped targets =
      let ts = all_transpos gs in
      let apart = renamed_groups-Apart is_target gs grouped targets in
      seq-Ok (λ d'. All (Filled fs d d') ts) (AllPlaced fs visited d)
        (apply_groups fs has_overlay visited []) (for_each (clean_up fs) (renames is_target 0 ts)) d
        (apply_groups-AllPlaced fs law has_overlay visited [] d (All-perm IsGroup perm apart.0)
          (AllPairs-perm Apart Apart-flip perm apart.1) (has_path-nil visited))
        (λ d' v h.
          placed-Filled gs visited d d' (for_each (clean_up fs) (renames is_target 0 ts) d').1 perm
            apart.0 grouped v
            (clean_up-CleanedUp fs law (renames is_target 0 ts) d'
              (renames-Clean is_target 0 ts (IsGrouped-Distinct gs grouped.groups grouped.separate)
                (all_transpos-All (λ (t : PathTranspo). Plain t.output_path) gs
                  grouped.plain_outputs))
              h))

module _ {D : Type 0} (fs : FileSystem D) (law : IsFileSystem fs)
    (has_overlay : FilePath → Bool) where
  -- The groups of the first loop, visited by the other two loops in any orders, over a disk whose
  -- calls do what their documentation says, and with renames that may fail: if no error is
  -- reported, each new file holds what its old file held before, also where old files swap places,
  -- where one becomes several new files, and where a pending overlay has it copied.
  pub apply_transpositions-Filled :
      (visit visit' : List Group → List Group) (gs : List Group) (d : D)
      → ((l : List Group) → Permᴰ l (visit l))
      → ((l : List Group) → Permᴰ l (visit' l))
      → IsGrouped gs
      → Ok
          (apply_transpositions fs visit visit' has_overlay (some gs))
          d
          (λ d'. All (λ (g : Group). All (Filled fs d d') g.transpos) gs)
  unfolding apply_transpositions
  apply_transpositions-Filled visit visit' gs d perm perm' grouped =
      rw (apply_transpositions, rename_clashes-renamed (λ p. has_path p (keys gs)) (visit gs) 0 [])
        (λ h.
          All-perm (λ (g : Group). All (Filled fs d _) g.transpos) (Permᴰ.symm (perm gs))
            (All-all_transpos (Filled fs d _) (visit gs) (
              run_groups-Filled fs law has_overlay (λ p. has_path p (keys gs)) (visit gs)
                (visit' (renamed_groups (λ p. has_path p (keys gs)) 0 (visit gs))) d (perm' _)
                (IsGrouped-perm (perm gs) grouped)
                (All-perm (λ (g : Group). has_path g.target_path (keys gs) ≡ true) (perm gs)
                  (keys-has_path gs))
                h)))
