-- ===== src/Pwr/Bowl/Transpositions/Keys.antt =====
-- The map that the first loop of `applyTranspositions` makes (pwr/bowl/bowl_overlay.go).
use wharf.Base.{
  true, false, List, [], ◌∷◌, map, Permᴰ, All, All-map, All-join, All-perm, AllPairs, AllPairs-perm,
  ◌≡◌, ◌≢◌, refl, sym, Bool-cases, inl, inr, bytes_equal, bytes_equal_refl,
}
use wharf.Pwr.Bowl.{FilePath}
use wharf.Pwr.Bowl.Transpositions.{PathTranspo, Group, has_path}
use wharf.Pwr.Bowl.Transpositions.Copies.{AllOutputs, AllOutputs-zip, Distinct}
use wharf.Pwr.Bowl.Transpositions.Visits.{IsGroup}
use wharf.Pwr.Bowl.Transpositions.Renamed.{Plain, all_transpos}
use wharf.Pwr.Bowl.Transpositions.Regroup.{Distinct-join}

abbrev pub keys : List Group → List FilePath
keys gs = map (λ (g : Group). g.target_path) gs

-- Two groups with different keys, and no new file in common
pub record Separate (g g' : Group) : Type 0 where
  pub targets : g.target_path ≢ g'.target_path
  pub outputs : AllOutputs (λ o. AllOutputs (λ o'. o ≢ o') g'.transpos) g.transpos

-- The map that the first loop makes, where no two new files have the same path, and no path ends
-- like the names that the second loop makes up.
pub record IsGrouped (gs : List Group) : Type 0 where
  pub groups : All IsGroup gs
  pub separate : AllPairs Separate gs
  pub plain_keys : All (λ (g : Group). Plain g.target_path) gs
  pub plain_outputs : All (λ (g : Group). AllOutputs Plain g.transpos) gs

AllOutputs-nil : (ts : List PathTranspo) → AllOutputs (λ o. AllOutputs (λ o'. o ≢ o') []) ts
AllOutputs-nil [] = tt
AllOutputs-nil (t ∷ ts) = (tt, AllOutputs-nil ts)

pub cross-flip :
    (ts ts' : List PathTranspo)
    → AllOutputs (λ o. AllOutputs (λ o'. o ≢ o') ts') ts
    → AllOutputs (λ o. AllOutputs (λ o'. o ≢ o') ts) ts'
cross-flip [] ts' h = AllOutputs-nil ts'
cross-flip (t ∷ ts) ts' h =
    AllOutputs-zip (λ o. t.output_path ≢ o) (λ o. AllOutputs (λ o'. o ≢ o') ts)
      (λ o. AllOutputs (λ o'. o ≢ o') (t ∷ ts)) ts' (λ o x y. ((λ e. x (sym e)), y)) h.0
      (cross-flip ts ts' h.1)

pub IsGrouped-perm : {gs gs' : List Group} → Permᴰ gs gs' → IsGrouped gs → IsGrouped gs'
IsGrouped-perm p v = record {
  groups = All-perm IsGroup p v.groups;
  separate =
      AllPairs-perm Separate
        (λ g g' s. record {
          targets = λ e. s.targets (sym e);
          outputs = cross-flip g.transpos g'.transpos s.outputs;
        })
        p v.separate;
  plain_keys = All-perm (λ (g : Group). Plain g.target_path) p v.plain_keys;
  plain_outputs = All-perm (λ (g : Group). AllOutputs Plain g.transpos) p v.plain_outputs;
}

join_cross :
    (ts : List PathTranspo) (gs : List Group)
    → All (λ (g : Group). AllOutputs (λ o. AllOutputs (λ o'. o ≢ o') g.transpos) ts) gs
    → AllOutputs (λ o. AllOutputs (λ o'. o ≢ o') (all_transpos gs)) ts
join_cross ts [] h = AllOutputs-nil ts
join_cross ts (g ∷ gs) h =
    AllOutputs-zip (λ o. AllOutputs (λ o'. o ≢ o') g.transpos)
      (λ o. AllOutputs (λ o'. o ≢ o') (all_transpos gs))
      (λ o. AllOutputs (λ o'. o ≢ o') (all_transpos (g ∷ gs))) ts
      (λ o x y. All-join (λ (t : PathTranspo). o ≢ t.output_path) g.transpos (all_transpos gs) x y)
      h.0 (join_cross ts gs h.1)

pub IsGrouped-Distinct :
    (gs : List Group) → All IsGroup gs → AllPairs Separate gs → Distinct (all_transpos gs)
IsGrouped-Distinct [] groups separate = tt
IsGrouped-Distinct (g ∷ gs) groups separate =
    Distinct-join g.transpos (all_transpos gs) groups.0.distinct
      (IsGrouped-Distinct gs groups.1 separate.1)
      (join_cross g.transpos gs (
        All-map (Separate g)
          (λ (g' : Group). AllOutputs (λ o. AllOutputs (λ o'. o ≢ o') g'.transpos) g.transpos) gs
          (λ g' s. s.outputs) separate.0))

has_path-keys :
    (p : FilePath) (g : Group) (gs : List Group)
    → has_path p (keys gs) ≡ true
    → has_path p (keys (g ∷ gs)) ≡ true
unfolding has_path
has_path-keys p g gs h = elim (Bool-cases (bytes_equal g.target_path p)) [
  | inl e ↦ rw (has_path, e)
  | inr e ↦ rw (has_path, e) h
]

pub keys-has_path :
    (gs : List Group) → All (λ (g : Group). has_path g.target_path (keys gs) ≡ true) gs
unfolding has_path
keys-has_path [] = tt
keys-has_path (g ∷ gs) = (
  rw (has_path, bytes_equal_refl g.target_path),
  All-map (λ (g' : Group). has_path g'.target_path (keys gs) ≡ true)
      (λ (g' : Group). has_path g'.target_path (keys (g ∷ gs)) ≡ true) gs
      (λ g' h. has_path-keys g'.target_path g gs h) (keys-has_path gs),
)

pub has_path-nil : (gs : List Group) → All (λ (g : Group). has_path g.target_path [] ≡ false) gs
unfolding has_path
has_path-nil [] = tt
has_path-nil (g ∷ gs) = (refl, has_path-nil gs)
