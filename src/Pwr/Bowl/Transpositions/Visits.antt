-- ===== src/Pwr/Bowl/Transpositions/Visits.antt =====
-- The loop of `applyTranspositions` over the groups, and the renames behind it
-- (pwr/bowl/bowl_overlay.go).
use wharf.Base.{
  Bool, false, List, [], ◌∷◌, All, All-zip, AllPairs, ◌≡◌, ◌≢◌, ◌∙◌, refl, sym, ap, Bool-cases, inl,
  inr, bytes_equal, bytes_equal→eq,
}
use mathlib.Core.Path.{subst}
use wharf.Pwr.Bowl.{FilePath}
use wharf.Pwr.Bowl.Disk.{in_output, FileSystem, IsFileSystem}
use wharf.Pwr.Bowl.Disk.Moves.{Ok, seq-Ok}
use wharf.Pwr.Bowl.Transpositions.{
  PathTranspo, TranspoBehavior, Group, has_path, transfer, apply_group, behavior_of, apply_groups,
}
use wharf.Pwr.Bowl.Transpositions.Copies.{
  in_output-apart, AllOutputs, AllOutputs-map, AllOutputs-zip, Distinct, Holds, transfer-Moved,
}
use wharf.Pwr.Bowl.Transpositions.Grouped.{differs, Placed, multiple-Placed}

-- A group of the map: its key is the old file of each, and no two have the same new file.
pub record IsGroup (g : Group) : Type 0 where
  pub uniform : All (λ (t : PathTranspo). t.target_path ≡ g.target_path) g.transpos
  pub distinct : Distinct g.transpos

module _ {D : Type 0} (fs : FileSystem D) (law : IsFileSystem fs) where
  transfer-Placed :
      (behavior : TranspoBehavior) (target : FilePath) (t : PathTranspo) (d : D)
      → target ≢ t.output_path
      → Ok (transfer fs behavior target t.output_path) d (Placed fs target (t ∷ []) d)
  transfer-Placed behavior target t d ne h =
      let v = transfer-Moved fs law target behavior t.output_path d ne h in
      record {
        filled = (v.same, tt);
        keeps = λ q ne' h'.
            v.keeps (in_output q) (in_output-apart q target ne')
              (in_output-apart q t.output_path h'.0);
      }

  apply_group-Placed :
      (behavior : TranspoBehavior) (target : FilePath) (ts : List PathTranspo) (d : D)
      → IsGroup (record { target_path = target; transpos = ts })
      → Ok
          (apply_group fs behavior (record { target_path = target; transpos = ts }))
          d
          (Placed fs target ts d)
  unfolding apply_group
  apply_group-Placed behavior target [] d v = multiple-Placed fs law behavior target [] d tt
  apply_group-Placed behavior target (t ∷ t' ∷ ts) d v =
      multiple-Placed fs law behavior target (t ∷ t' ∷ ts) d v.distinct
  apply_group-Placed behavior target (t ∷ []) d v =
      elim (Bool-cases (bytes_equal t.target_path t.output_path)) [
        | inl e ↦
            rw (apply_group, e)
              (λ h. record {
                filled = (
                  ap (λ p. fs.read (in_output p) d)
                      (sym (bytes_equal→eq t.target_path t.output_path e) ∙ v.uniform.0),
                  tt,
                );
                keeps = λ q ne h. refl;
              })
        | inr e ↦
            rw (apply_group, e)
              (subst
                (λ x. Ok (transfer fs behavior x t.output_path) d (Placed fs target (t ∷ []) d))
                (sym v.uniform.0)
                (transfer-Placed behavior target t d (
                  subst (λ x. x ≢ t.output_path) v.uniform.0
                    (differs t.target_path t.output_path e))))
      ]

-- What keeps two groups out of each other's way
pub record Apart (g g' : Group) : Type 0 where
  pub targets : g.target_path ≢ g'.target_path
  pub first : AllOutputs (λ o. g'.target_path ≢ o) g.transpos
  pub second : AllOutputs (λ o. g.target_path ≢ o) g'.transpos
  pub outputs : AllOutputs (λ o. AllOutputs (λ o'. o ≢ o') g'.transpos) g.transpos

-- The path is neither an old file of a group nor a new one.
abbrev pub Outside : FilePath → Group → Type 0
Outside q g = (q ≢ g.target_path) × AllOutputs (λ o. q ≢ o) g.transpos

Outside-cons :
    (g' : Group) (gs : List Group) (ts : List PathTranspo)
    → AllOutputs (λ o. g'.target_path ≢ o) ts
    → AllOutputs (λ o. AllOutputs (λ o'. o ≢ o') g'.transpos) ts
    → AllOutputs (λ o. All (Outside o) gs) ts
    → AllOutputs (λ o. All (Outside o) (g' ∷ gs)) ts
Outside-cons g' gs [] a b c = tt
Outside-cons g' gs (t ∷ ts) a b c =
    ((((λ e. a.0 (sym e)), b.0), c.0), Outside-cons g' gs ts a.1 b.1 c.1)

Outside-nil : (ts : List PathTranspo) → AllOutputs (λ o. All (Outside o) []) ts
Outside-nil [] = tt
Outside-nil (t ∷ ts) = (tt, Outside-nil ts)

outside :
    (g : Group) (gs : List Group)
    → All (Apart g) gs
    → AllOutputs (λ o. All (Outside o) gs) g.transpos
outside g [] h = Outside-nil g.transpos
outside g (g' ∷ gs) h = Outside-cons g' gs g.transpos h.0.first h.0.outputs (outside g gs h.1)

abbrev pub AllApart : List Group → Type 0
AllApart gs = AllPairs Apart gs

module _ {D : Type 0} (fs : FileSystem D) where
  abbrev pub GroupFilled : D → D → Group → Type 0
  GroupFilled d d' g = AllOutputs (Holds fs g.target_path d d') g.transpos

  -- Behind the loop: each new file holds what its old file held before.
  pub record AllPlaced (gs : List Group) (d d' : D) : Type 0 where
    pub filled : All (GroupFilled d d') gs
    pub keeps :
        (q : FilePath) → All (Outside q) gs → fs.read (in_output q) d' ≡ fs.read (in_output q) d

  AllPlaced-cons :
      (g : Group) (gs : List Group) (d d' d'' : D)
      → All (Apart g) gs
      → Placed fs g.target_path g.transpos d d'
      → AllPlaced gs d' d''
      → AllPlaced (g ∷ gs) d d''
  AllPlaced-cons g gs d d' d'' apart v w = record {
    filled = (
      AllOutputs-zip (λ o. All (Outside o) gs) (Holds fs g.target_path d d')
          (Holds fs g.target_path d d'') g.transpos (λ o out h. w.keeps o out ∙ h)
          (outside g gs apart) v.filled,
      All-zip (Apart g) (GroupFilled d' d'') (GroupFilled d d'') gs
          (λ g' a filled.
            AllOutputs-map (Holds fs g'.target_path d' d'') (Holds fs g'.target_path d d'')
              g'.transpos (λ o h. h ∙ v.keeps g'.target_path (λ e. a.targets (sym e)) a.first)
              filled)
          apart w.filled,
    );
    keeps = λ q h. w.keeps q h.1 ∙ v.keeps q h.0.0 h.0.1;
  }

fresh_key :
    (g : Group) (already : List FilePath) (gs : List Group)
    → All (Apart g) gs
    → All (λ (g' : Group). has_path g'.target_path already ≡ false) gs
    → All (λ (g' : Group). has_path g'.target_path (g.target_path ∷ already) ≡ false) gs
unfolding has_path
fresh_key g already gs apart h =
    All-zip (Apart g) (λ (g' : Group). has_path g'.target_path already ≡ false)
      (λ (g' : Group). has_path g'.target_path (g.target_path ∷ already) ≡ false) gs
      (λ g' a h'. elim (Bool-cases (bytes_equal g.target_path g'.target_path)) [
        | inl e ↦ absurd (a.targets (bytes_equal→eq g.target_path g'.target_path e))
        | inr e ↦ rw (has_path, e) h'
      ])
      apart h

module _ {D : Type 0} (fs : FileSystem D) (law : IsFileSystem fs)
    (has_overlay : FilePath → Bool) where
  pub apply_groups-AllPlaced :
      (gs : List Group) (already : List FilePath) (d : D)
      → All IsGroup gs
      → AllApart gs
      → All (λ (g : Group). has_path g.target_path already ≡ false) gs
      → Ok (apply_groups fs has_overlay gs already) d (AllPlaced fs gs d)
  unfolding apply_groups
  apply_groups-AllPlaced [] already d groups apart fresh =
      λ h. record { filled = tt; keeps = λ q h'. refl }
  apply_groups-AllPlaced (g ∷ gs) already d groups apart fresh =
      rw (apply_groups, fresh.0)
        (seq-Ok (AllPlaced fs (g ∷ gs) d) (Placed fs g.target_path g.transpos d)
          (apply_group fs (behavior_of has_overlay g.target_path) g)
          (apply_groups fs has_overlay gs (g.target_path ∷ already)) d
          (apply_group-Placed fs law (behavior_of has_overlay g.target_path) g.target_path
            g.transpos d groups.0)
          (λ d' v h.
            AllPlaced-cons fs g gs d d'
              (apply_groups fs has_overlay gs (g.target_path ∷ already) d').1 apart.0 v
              (apply_groups-AllPlaced gs (g.target_path ∷ already) d' groups.1 apart.1
                (fresh_key g already gs apart.0 fresh.1) h)))
