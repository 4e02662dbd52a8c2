-- ===== src/Pwr/Bowl/Transpositions/Regroup.antt =====
-- The groups behind the second loop of `applyTranspositions` (pwr/bowl/bowl_overlay.go), from the
-- list of all their transpositions.
use wharf.Base.{
  ℕ, suc, Bool, true, List, [], ◌∷◌, ◌++◌, All, All-zip, All-append, All-join, AllPairs, ◌≡◌, ◌≢◌,
  ◌∙◌, sym, Bool-cases, inl, inr,
}
use wharf.Pwr.Bowl.{FilePath}
use wharf.Pwr.Bowl.Transpositions.{PathTranspo, Group}
use wharf.Pwr.Bowl.Transpositions.Copies.{AllOutputs, AllOutputs-map, Distinct}
use wharf.Pwr.Bowl.Transpositions.Visits.{IsGroup, Apart}
use wharf.Pwr.Bowl.Transpositions.Renamed.{
  Plain, all_transpos, clashes, renamed, renamed_groups, next_seed,
}
use wharf.Pwr.Bowl.Transpositions.Fresh.{Safe}

abbrev pub Uniform : Group → Type 0
Uniform g = All (λ (t : PathTranspo). t.target_path ≡ g.target_path) g.transpos

abbrev pub OtherTargets : Group → Group → Type 0
OtherTargets g g' = g.target_path ≢ g'.target_path

Distinct-append :
    (ts ts' : List PathTranspo)
    → Distinct (ts ++ ts')
    → Distinct ts × Distinct ts' × AllOutputs (λ o. AllOutputs (λ o'. o ≢ o') ts') ts
Distinct-append [] ts' h = (tt, h, tt)
Distinct-append (t ∷ ts) ts' h =
    let split = All-append (λ (t' : PathTranspo). t.output_path ≢ t'.output_path) ts ts' h.0 in
    let rest = Distinct-append ts ts' h.1 in ((split.0, rest.0), rest.1, (split.1, rest.2))

pub Distinct-join :
    (ts ts' : List PathTranspo)
    → Distinct ts
    → Distinct ts'
    → AllOutputs (λ o. AllOutputs (λ o'. o ≢ o') ts') ts
    → Distinct (ts ++ ts')
Distinct-join [] ts' h h' cross = h'
Distinct-join (t ∷ ts) ts' h h' cross = (
  All-join (λ (t' : PathTranspo). t.output_path ≢ t'.output_path) ts ts' h.0 cross.0,
  Distinct-join ts ts' h.1 h' cross.1,
)

abbrev Cross : Group → Group → Type 0
Cross g g' = AllOutputs (λ o. AllOutputs (λ o'. o ≢ o') g'.transpos) g.transpos

pub All-all_transpos :
    (P : PathTranspo → Type 0) (gs : List Group)
    → All P (all_transpos gs)
    → All (λ (g : Group). All P g.transpos) gs
All-all_transpos P [] h = tt
All-all_transpos P (g ∷ gs) h =
    let split = All-append P g.transpos (all_transpos gs) h in
    (split.0, All-all_transpos P gs split.1)

pub all_transpos-All :
    (P : PathTranspo → Type 0) (gs : List Group)
    → All (λ (g : Group). All P g.transpos) gs
    → All P (all_transpos gs)
all_transpos-All P [] h = tt
all_transpos-All P (g ∷ gs) h =
    All-join P g.transpos (all_transpos gs) h.0 (all_transpos-All P gs h.1)

cross_groups :
    (ts : List PathTranspo) (gs : List Group)
    → AllOutputs (λ o. AllOutputs (λ o'. o ≢ o') (all_transpos gs)) ts
    → All (λ (g : Group). AllOutputs (λ o. AllOutputs (λ o'. o ≢ o') g.transpos) ts) gs
cross_groups ts [] h = tt
cross_groups ts (g ∷ gs) h =
    let split = λ (o : FilePath) (x : AllOutputs (λ o'. o ≢ o') (all_transpos (g ∷ gs))).
      All-append (λ (t' : PathTranspo). o ≢ t'.output_path) g.transpos (all_transpos gs) x in
    (
      AllOutputs-map (λ o. AllOutputs (λ o'. o ≢ o') (all_transpos (g ∷ gs)))
          (λ o. AllOutputs (λ o'. o ≢ o') g.transpos) ts (λ o x. (split o x).0) h,
      cross_groups ts gs (
          AllOutputs-map (λ o. AllOutputs (λ o'. o ≢ o') (all_transpos (g ∷ gs)))
            (λ o. AllOutputs (λ o'. o ≢ o') (all_transpos gs)) ts (λ o x. (split o x).1) h),
    )

module _ (is_target : FilePath → Bool) where
  -- A group whose key is known, and whose new names are no key but its own
  pub record IsNamed (g : Group) : Type 0 where
    pub uniform : Uniform g
    pub plain : Plain g.target_path
    pub key : is_target g.target_path ≡ true
    pub safe : All (Safe is_target) g.transpos

  no_key :
      (g : Group) (target : FilePath) (ts : List PathTranspo)
      → IsNamed g
      → target ≢ g.target_path
      → All (λ (t : PathTranspo). t.target_path ≡ target) ts
      → All (Safe is_target) ts
      → AllOutputs (λ o. g.target_path ≢ o) ts
  no_key g target ts named ne uniform safe =
      All-zip (λ (t : PathTranspo). t.target_path ≡ target) (Safe is_target)
        (λ (t : PathTranspo). g.target_path ≢ t.output_path) ts
        (λ t u s. elim s [
          | inl e ↦ λ x. ne (sym u ∙ e ∙ sym x)
          | inr f ↦ f g.target_path named.plain named.key
        ])
        uniform safe

  IsNamed-Apart :
      (g g' : Group) → IsNamed g → IsNamed g' → OtherTargets g g' → Cross g g' → Apart g g'
  IsNamed-Apart g g' n n' ne cross = record {
    targets = ne;
    first = no_key g' g.target_path g.transpos n' ne n.uniform n.safe;
    second = no_key g g'.target_path g'.transpos n (λ e. ne (sym e)) n'.uniform n'.safe;
    outputs = cross;
  }

  pub IsNamed-AllPairs :
      (gs : List Group)
      → All IsNamed gs
      → AllPairs OtherTargets gs
      → Distinct (all_transpos gs)
      → All IsGroup gs × AllPairs Apart gs
  IsNamed-AllPairs [] named targets distinct = (tt, tt)
  IsNamed-AllPairs (g ∷ gs) named targets distinct =
      let split = Distinct-append g.transpos (all_transpos gs) distinct in
      let rest = IsNamed-AllPairs gs named.1 targets.1 split.1 in
      (
        (record { uniform = named.0.uniform; distinct = split.0 }, rest.0),
        (
          All-zip (OtherTargets g) (λ g'. IsNamed g' × Cross g g') (Apart g) gs
              (λ g' ne n. IsNamed-Apart g g' named.0 n.0 ne n.1) targets.0
              (All-zip IsNamed (Cross g) (λ g'. IsNamed g' × Cross g g') gs (λ g' a b. (a, b))
                named.1 (cross_groups g.transpos gs split.2)),
          rest.1,
        ),
      )

  renamed-uniform :
      (target : FilePath) (n : ℕ) (ts : List PathTranspo)
      → All (λ (t : PathTranspo). t.target_path ≡ target) ts
      → All (λ (t : PathTranspo). t.target_path ≡ target) (renamed is_target n ts)
  renamed-uniform target n [] h = tt
  renamed-uniform target n (t ∷ ts) h = elim (Bool-cases (clashes is_target t)) [
    | inl e ↦ rw (renamed, e) (h.0, renamed-uniform target (suc n) ts h.1)
    | inr e ↦ rw (renamed, e) (h.0, renamed-uniform target n ts h.1)
  ]

  abbrev pub KnownKey : Group → Type 0
  KnownKey g = Plain g.target_path × (is_target g.target_path ≡ true)

  pub renamed_groups-IsNamed :
      (n : ℕ) (gs : List Group)
      → All Uniform gs
      → All KnownKey gs
      → All (Safe is_target) (all_transpos (renamed_groups is_target n gs))
      → All IsNamed (renamed_groups is_target n gs)
  renamed_groups-IsNamed n [] uniform keys safe = tt
  renamed_groups-IsNamed n (g ∷ gs) uniform keys safe =
      let m = next_seed is_target n g.transpos in
      let split =
        All-append (Safe is_target) (renamed is_target n g.transpos)
          (all_transpos (renamed_groups is_target m gs)) safe in
      (
        record {
          uniform = renamed-uniform g.target_path n g.transpos uniform.0;
          plain = keys.0.0;
          key = keys.0.1;
          safe = split.0;
        },
        renamed_groups-IsNamed m gs uniform.1 keys.1 split.1,
      )

  renamed_groups-targets :
      (target : FilePath) (n : ℕ) (gs : List Group)
      → All (λ (g : Group). target ≢ g.target_path) gs
      → All (λ (g : Group). target ≢ g.target_path) (renamed_groups is_target n gs)
  renamed_groups-targets target n [] h = tt
  renamed_groups-targets target n (g ∷ gs) h =
      (h.0, renamed_groups-targets target (next_seed is_target n g.transpos) gs h.1)

  pub renamed_groups-AllPairs :
      (n : ℕ) (gs : List Group)
      → AllPairs OtherTargets gs
      → AllPairs OtherTargets (renamed_groups is_target n gs)
  renamed_groups-AllPairs n [] h = tt
  renamed_groups-AllPairs n (g ∷ gs) h =
      let m = next_seed is_target n g.transpos in
      (renamed_groups-targets g.target_path m gs h.0, renamed_groups-AllPairs m gs h.1)
