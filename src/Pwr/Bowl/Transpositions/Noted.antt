-- ===== src/Pwr/Bowl/Transpositions/Noted.antt =====
-- `applyTranspositions` from the transpositions that the bowl has noted (pwr/bowl/bowl_overlay.go).
use wharf.Base.{
  ℕ, Bool, some, List, [], ◌∷◌, get_elem?, Permᴰ, All, All-zip, All-append, All-snoc, AllPairs, ◌≡◌,
  ◌≢◌, Bool-cases, Option-cases, inl, inr, bytes_equal,
}
use mathlib.Core.Path.{subst}
use wharf.Pwr.Bowl.{FilePath, Transposition}
use wharf.Pwr.Bowl.Marks.{OtherSource}
use wharf.Pwr.Bowl.Disk.{in_output, FileSystem, IsFileSystem}
use wharf.Pwr.Bowl.Disk.Moves.{Ok}
use wharf.Pwr.Bowl.Transpositions.{
  PathTranspo, Group, add_transpo, group_transpositions, apply_transpositions,
}
use wharf.Pwr.Bowl.Transpositions.Renamed.{Plain}
use wharf.Pwr.Bowl.Transpositions.Keys.{IsGrouped}
use wharf.Pwr.Bowl.Transpositions.Whole.{apply_transpositions-Filled}
use wharf.Pwr.Bowl.Transpositions.Grouping.{Absent, add_transpo-All, add_transpo-IsGrouped}

-- The paths of a container: each file has its own, and none ends like a made-up name.
pub record HasPaths (files : List FilePath) : Type 0 where
  pub own :
      (i j : ℕ) (p : FilePath) → get_elem? files i ≡ some p → get_elem? files j ≡ some p → i ≡ j
  pub plain : (i : ℕ) (p : FilePath) → get_elem? files i ≡ some p → Plain p

some_eq : (p q : FilePath) → some p ≡ some q → p ≡ q
some_eq p q h = cc

abbrev AllTranspos : (PathTranspo → Type 0) → List Group → Type 0
AllTranspos P gs = All (λ (g : Group). All P g.transpos) gs

add_transpo-Absent :
    (p : FilePath) (t : PathTranspo) (gs : List Group)
    → p ≢ t.output_path
    → All (Absent p) gs
    → All (Absent p) (add_transpo t gs)
add_transpo-Absent p t gs ne =
    add_transpo-All (Absent p) (Absent p) t gs (ne, tt) (λ g h. h)
      (λ g e h. All-snoc (λ (t' : PathTranspo). p ≢ t'.output_path) g.transpos t h ne)

add_transpo-AllTranspos :
    (P : PathTranspo → Type 0) (t : PathTranspo) (gs : List Group)
    → AllTranspos P (add_transpo t gs)
    → P t × AllTranspos P gs
unfolding add_transpo
add_transpo-AllTranspos P t [] = λ h. (h.0.0, tt)
add_transpo-AllTranspos P t (g ∷ gs) = elim (Bool-cases (bytes_equal g.target_path t.target_path)) [
  | inl e ↦
      rw (add_transpo, e)
        (λ h. let split = All-append P g.transpos (t ∷ []) h.0 in (split.1.0, (split.0, h.1)))
  | inr e ↦
      rw (add_transpo, e)
        (λ h. let rest = add_transpo-AllTranspos P t gs h.1 in (rest.0, (h.0, rest.1)))
]

module _ (target source : List FilePath) where
  -- The predicate of the two paths of a transposition
  abbrev pub Both : (FilePath → FilePath → Type 0) → Transposition → Type 0
  Both R t =
      (p q : FilePath)
      → get_elem? target t.target_index ≡ some p
      → get_elem? source t.source_index ≡ some q
      → R p q

  abbrev FreshFor : List Group → Transposition → Type 0
  FreshFor gs t = (q : FilePath) → get_elem? source t.source_index ≡ some q → All (Absent q) gs

  abbrev path_transpo : FilePath → FilePath → PathTranspo
  path_transpo p q = record { target_path = p; output_path = q }

  FreshFor-add :
      (t : Transposition) (ts : List Transposition) (p q : FilePath) (gs : List Group)
      → HasPaths source
      → get_elem? source t.source_index ≡ some q
      → All (OtherSource t) ts
      → All (FreshFor gs) ts
      → All (FreshFor (add_transpo (path_transpo p q) gs)) ts
  FreshFor-add t ts p q gs paths e others fresh =
      All-zip (OtherSource t) (FreshFor gs) (FreshFor (add_transpo (path_transpo p q) gs)) ts
        (λ t' ne f q' e'.
          add_transpo-Absent q' (path_transpo p q) gs
            (λ x. ne (
              paths.own t.source_index t'.source_index q e
                (subst (λ y. get_elem? source t'.source_index ≡ some y) x e')))
            (f q' e'))
        others fresh

  group_transpositions-IsGrouped :
      (ts : List Transposition) (gs gs' : List Group)
      → HasPaths target
      → HasPaths source
      → AllPairs OtherSource ts
      → All (FreshFor gs) ts
      → IsGrouped gs
      → group_transpositions target source ts gs ≡ some gs'
      → IsGrouped gs'
  unfolding group_transpositions
  group_transpositions-IsGrouped [] gs gs' paths paths' others fresh v = λ h. subst IsGrouped (cc) v
  group_transpositions-IsGrouped (t ∷ ts) gs gs' paths paths' others fresh v =
      elim (Option-cases (get_elem? target t.target_index)) [
        | inl e ↦ rw (group_transpositions, e) (λ h. absurd cc)
        | inr (p, e) ↦ elim (Option-cases (get_elem? source t.source_index)) [
          | inl e' ↦ rw (group_transpositions, e, e') (λ h. absurd cc)
          | inr (q, e') ↦
              rw (group_transpositions, e, e')
                (group_transpositions-IsGrouped ts (add_transpo (path_transpo p q) gs) gs' paths
                  paths' others.1 (FreshFor-add t ts p q gs paths' e' others.0 fresh.1)
                  (add_transpo-IsGrouped (path_transpo p q) gs (paths.plain t.target_index p e)
                    (paths'.plain t.source_index q e') (fresh.0 q e') v))
        ]
      ]

  group_transpositions-Both :
      (R : FilePath → FilePath → Type 0) (ts : List Transposition) (gs gs' : List Group)
      → group_transpositions target source ts gs ≡ some gs'
      → AllTranspos (λ (t : PathTranspo). R t.target_path t.output_path) gs'
      → All (Both R) ts × AllTranspos (λ (t : PathTranspo). R t.target_path t.output_path) gs
  unfolding group_transpositions
  group_transpositions-Both R [] gs gs' = λ h all. (tt, subst (AllTranspos _) (cc) all)
  group_transpositions-Both R (t ∷ ts) gs gs' =
      elim (Option-cases (get_elem? target t.target_index)) [
        | inl e ↦ rw (group_transpositions, e) (λ h all. absurd cc)
        | inr (p, e) ↦ elim (Option-cases (get_elem? source t.source_index)) [
          | inl e' ↦ rw (group_transpositions, e, e') (λ h all. absurd cc)
          | inr (q, e') ↦
              rw (group_transpositions, e, e')
                (λ h all.
                  let P = λ (t : PathTranspo). R t.target_path t.output_path in
                  let rest =
                    group_transpositions-Both R ts (add_transpo (path_transpo p q) gs) gs' h all in
                  let here = add_transpo-AllTranspos P (path_transpo p q) gs rest.1 in
                  (
                    (
                      λ p' q' x x'.
                          subst (λ y. R y q') (some_eq p p' x)
                            (subst (λ y. R p y) (some_eq q q' x') here.0),
                      rest.0,
                    ),
                    here.1,
                  ))
        ]
      ]

FreshFor-nil :
    (target source : List FilePath) (ts : List Transposition) → All (FreshFor target source []) ts
FreshFor-nil target source [] = tt
FreshFor-nil target source (t ∷ ts) = ((λ q e. tt), FreshFor-nil target source ts)

module _ {D : Type 0} (fs : FileSystem D) (law : IsFileSystem fs) (has_overlay : FilePath → Bool)
    (target source : List FilePath) where
  -- A transposition's new file holds what its old file held.
  abbrev pub Done : D → D → Transposition → Type 0
  Done d d' t = Both target source (λ p q. fs.read (in_output q) d' ≡ fs.read (in_output p) d) t

  grouped-Done :
      (visit visit' : List Group → List Group) (ts : List Transposition) (gs : List Group) (d : D)
      → ((l : List Group) → Permᴰ l (visit l))
      → ((l : List Group) → Permᴰ l (visit' l))
      → HasPaths target
      → HasPaths source
      → AllPairs OtherSource ts
      → group_transpositions target source ts [] ≡ some gs
      → Ok (apply_transpositions fs visit visit' has_overlay (some gs)) d (λ d'. All (Done d d') ts)
  grouped-Done visit visit' ts gs d perm perm' paths paths' others e h =
      (group_transpositions-Both target source
        (λ p q. fs.read (in_output q) _ ≡ fs.read (in_output p) d) ts [] gs e
        (apply_transpositions-Filled fs law has_overlay visit visit' gs d perm perm'
          (group_transpositions-IsGrouped target source ts [] gs paths paths' others
            (FreshFor-nil target source ts)
            (record { groups = tt; separate = tt; plain_keys = tt; plain_outputs = tt }) e)
          h)).0

  -- The transpositions that a bowl has noted, no two for the same new file, in containers where
  -- each file has a path of its own and no path ends like the names that the code makes up; the
  -- loops visit the map in any orders, the disk's calls do what their documentation says, and its
  -- renames may fail. If no error is reported, each new file holds what its old file held before,
  -- also where old files swap places, where one becomes several new files, and where a pending
  -- overlay has it copied.
  pub apply_transpositions-Done :
      (visit visit' : List Group → List Group) (ts : List Transposition) (d : D)
      → ((l : List Group) → Permᴰ l (visit l))
      → ((l : List Group) → Permᴰ l (visit' l))
      → HasPaths target
      → HasPaths source
      → AllPairs OtherSource ts
      → Ok
          (apply_transpositions fs visit visit' has_overlay
            (group_transpositions target source ts []))
          d
          (λ d'. All (Done d d') ts)
  unfolding apply_transpositions
  apply_transpositions-Done visit visit' ts d perm perm' paths paths' others =
      elim (Option-cases (group_transpositions target source ts [])) [
        | inl e ↦ rw (apply_transpositions, e) (λ h. absurd cc)
        | inr (gs, e) ↦ rw (e) (grouped-Done visit visit' ts gs d perm perm' paths paths' others e)
      ]
