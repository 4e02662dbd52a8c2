-- ===== src/Pwr/Bowl/Transpositions/Grouping.antt =====
-- The first loop of `applyTranspositions` (pwr/bowl/bowl_overlay.go), one `append` of it.
use wharf.Base.{
  List, [], ◌∷◌, ◌++◌, All, All-map, All-zip, All-snoc, AllPairs, ◌≡◌, ◌≢◌, refl, sym, Bool-cases,
  inl, inr, bytes_equal, bytes_equal→eq,
}
use wharf.Pwr.Bowl.{FilePath}
use wharf.Pwr.Bowl.Transpositions.{PathTranspo, Group, add_transpo}
use wharf.Pwr.Bowl.Transpositions.Copies.{AllOutputs, AllOutputs-map, AllOutputs-zip}
use wharf.Pwr.Bowl.Transpositions.Grouped.{differs}
use wharf.Pwr.Bowl.Transpositions.Visits.{IsGroup}
use wharf.Pwr.Bowl.Transpositions.Renamed.{Plain}
use wharf.Pwr.Bowl.Transpositions.Regroup.{Distinct-join}
use wharf.Pwr.Bowl.Transpositions.Keys.{IsGrouped, Separate}

abbrev new_group : PathTranspo → Group
new_group t = record { target_path = t.target_path; transpos = t ∷ [] }

abbrev extend : PathTranspo → Group → Group
extend t g = record g { transpos = g.transpos ++ (t ∷ []) }

-- No group has the new file yet.
abbrev pub Absent : FilePath → Group → Type 0
Absent p g = AllOutputs (λ o. p ≢ o) g.transpos

-- What holds of all groups behind the append
pub add_transpo-All :
    (P Q : Group → Type 0) (t : PathTranspo) (gs : List Group)
    → Q (new_group t)
    → ((g : Group) → P g → Q g)
    → ((g : Group) → g.target_path ≡ t.target_path → P g → Q (extend t g))
    → All P gs
    → All Q (add_transpo t gs)
unfolding add_transpo
add_transpo-All P Q t [] new keep more h = (new, tt)
add_transpo-All P Q t (g ∷ gs) new keep more h =
    elim (Bool-cases (bytes_equal g.target_path t.target_path)) [
      | inl e ↦
          rw (add_transpo, e)
            (more g (bytes_equal→eq g.target_path t.target_path e) h.0, All-map P Q gs keep h.1)
      | inr e ↦ rw (add_transpo, e) (keep g h.0, add_transpo-All P Q t gs new keep more h.1)
    ]

AllOutputs-snoc :
    (P : FilePath → Type 0) (t : PathTranspo) (ts : List PathTranspo)
    → AllOutputs P ts
    → P t.output_path
    → AllOutputs P (ts ++ (t ∷ []))
AllOutputs-snoc P t ts h p = All-snoc (λ (t' : PathTranspo). P t'.output_path) ts t h p

extend-IsGroup :
    (t : PathTranspo) (g : Group)
    → g.target_path ≡ t.target_path
    → IsGroup g
    → Absent t.output_path g
    → IsGroup (extend t g)
extend-IsGroup t g e v absent = record {
  uniform =
      All-snoc (λ (t' : PathTranspo). t'.target_path ≡ g.target_path) g.transpos t v.uniform
        (sym e);
  distinct =
      Distinct-join g.transpos (t ∷ []) v.distinct (tt, tt)
        (AllOutputs-map (λ o. t.output_path ≢ o) (λ o. AllOutputs (λ o'. o ≢ o') (t ∷ []))
          g.transpos (λ o ne. ((λ x. ne (sym x)), tt)) absent);
}

Separate-extend :
    (t : PathTranspo) (g g' : Group)
    → Absent t.output_path g
    → Separate g g'
    → Separate g (extend t g')
Separate-extend t g g' absent s = record {
  targets = s.targets;
  outputs =
      AllOutputs-zip (λ o. AllOutputs (λ o'. o ≢ o') g'.transpos) (λ o. t.output_path ≢ o)
        (λ o. AllOutputs (λ o'. o ≢ o') (g'.transpos ++ (t ∷ []))) g.transpos
        (λ o x ne. AllOutputs-snoc (λ o'. o ≢ o') t g'.transpos x (λ y. ne (sym y))) s.outputs
        absent;
}

extend-Separate :
    (t : PathTranspo) (g g' : Group)
    → Absent t.output_path g'
    → Separate g g'
    → Separate (extend t g) g'
extend-Separate t g g' absent s = record {
  targets = s.targets;
  outputs =
      AllOutputs-snoc (λ o. AllOutputs (λ o'. o ≢ o') g'.transpos) t g.transpos s.outputs absent;
}

Separate-new_group :
    (t : PathTranspo) (g : Group)
    → g.target_path ≢ t.target_path
    → Absent t.output_path g
    → Separate g (new_group t)
Separate-new_group t g ne absent = record {
  targets = ne;
  outputs =
      AllOutputs-map (λ o. t.output_path ≢ o) (λ o. AllOutputs (λ o'. o ≢ o') (t ∷ [])) g.transpos
        (λ o x. ((λ y. x (sym y)), tt)) absent;
}

add_transpo-Separate :
    (t : PathTranspo) (gs : List Group)
    → All (Absent t.output_path) gs
    → AllPairs Separate gs
    → AllPairs Separate (add_transpo t gs)
unfolding add_transpo
add_transpo-Separate t [] absent h = (tt, tt)
add_transpo-Separate t (g ∷ gs) absent h =
    elim (Bool-cases (bytes_equal g.target_path t.target_path)) [
      | inl e ↦
          rw (add_transpo, e)
            (
              All-zip (Absent t.output_path) (Separate g) (Separate (extend t g)) gs
                  (λ g' a s. extend-Separate t g g' a s) absent.1 h.0,
              h.1,
            )
      | inr e ↦
          rw (add_transpo, e)
            (
              add_transpo-All (Separate g) (Separate g) t gs
                  (Separate-new_group t g (differs g.target_path t.target_path e) absent.0)
                  (λ g' s. s) (λ g' e s. Separate-extend t g g' absent.0 s) h.0,
              add_transpo-Separate t gs absent.1 h.1,
            )
    ]

pub add_transpo-IsGrouped :
    (t : PathTranspo) (gs : List Group)
    → Plain t.target_path
    → Plain t.output_path
    → All (Absent t.output_path) gs
    → IsGrouped gs
    → IsGrouped (add_transpo t gs)
add_transpo-IsGrouped t gs plain plain' absent v = record {
  groups =
      add_transpo-All (λ g. IsGroup g × Absent t.output_path g) IsGroup t gs
        (record { uniform = (refl, tt); distinct = (tt, tt) }) (λ g h. h.0)
        (λ g e h. extend-IsGroup t g e h.0 h.1)
        (All-zip IsGroup (Absent t.output_path) (λ g. IsGroup g × Absent t.output_path g) gs
          (λ g a b. (a, b)) v.groups absent);
  separate = add_transpo-Separate t gs absent v.separate;
  plain_keys =
      add_transpo-All (λ (g : Group). Plain g.target_path) (λ (g : Group). Plain g.target_path) t gs
        plain (λ g h. h) (λ g e h. h) v.plain_keys;
  plain_outputs =
      add_transpo-All (λ (g : Group). AllOutputs Plain g.transpos)
        (λ (g : Group). AllOutputs Plain g.transpos) t gs (plain', tt) (λ g h. h)
        (λ g e h. AllOutputs-snoc Plain t g.transpos h plain') v.plain_outputs;
}
