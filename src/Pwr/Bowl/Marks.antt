-- ===== src/Pwr/Bowl/Marks.antt =====
-- What `overlayBowl` (pwr/bowl/bowl_overlay.go) has noted behind any sequence of calls.
use wharf.Base.{
  ℕ, Bool, false, none, some, List, [], ◌∷◌, All, AllPairs, ◌≡◌, ◌≢◌, ap, get_elem?, ◌==◌, ==_eq,
  ==_refl, arith, Bool-cases, Option-cases, inl, inr,
}
use mathlib.Core.Path.{subst}
use wharf.Pwr.Bowl.{
  FilePath, Container, Transposition, OverlayBowl, target_files_by_path, mark, mark_overlay,
  mark_move, replace_or_append, transpose, get_writer, BowlCall, call_get_writer, call_transpose,
  run_call, run_calls,
}

mark-All : (P : ℕ → Type 0) (i : ℕ) (js : List ℕ) → P i → All P js → All P (mark i js)
unfolding mark
mark-All P i [] p h = (p, tt)
mark-All P i (j ∷ js) p h = elim (Bool-cases (j == i)) [
  | inl e ↦ rw (mark, e) h
  | inr e ↦ rw (mark, e) (h.0, mark-All P i js p h.1)
]

differs : (i j : ℕ) → (i == j) ≡ false → i ≢ j
differs i j h e = absurd (ground (arith, h, e))

mark-AllPairs :
    (i : ℕ) (js : List ℕ) → AllPairs (λ j k. j ≢ k) js → AllPairs (λ j k. j ≢ k) (mark i js)
unfolding mark
mark-AllPairs i [] h = (tt, tt)
mark-AllPairs i (j ∷ js) h = elim (Bool-cases (j == i)) [
  | inl e ↦ rw (mark, e) h
  | inr e ↦ rw (mark, e) (mark-All (λ k. j ≢ k) i js (differs j i e) h.0, mark-AllPairs i js h.1)
]

abbrev pub OtherSource : Transposition → Transposition → Type 0
OtherSource t t' = t.source_index ≢ t'.source_index

replace_or_append-All :
    (P : ℕ → Type 0) (t : Transposition) (ts : List Transposition)
    → P t.source_index
    → All (λ (t' : Transposition). P t'.source_index) ts
    → All (λ (t' : Transposition). P t'.source_index) (replace_or_append t ts)
unfolding replace_or_append
replace_or_append-All P t [] p h = (p, tt)
replace_or_append-All P t (t' ∷ ts) p h = elim (Bool-cases (t'.source_index == t.source_index)) [
  | inl e ↦ rw (replace_or_append, e) (p, h.1)
  | inr e ↦ rw (replace_or_append, e) (h.0, replace_or_append-All P t ts p h.1)
]

replace_or_append-AllPairs :
    (t : Transposition) (ts : List Transposition)
    → AllPairs OtherSource ts
    → AllPairs OtherSource (replace_or_append t ts)
unfolding replace_or_append
replace_or_append-AllPairs t [] h = (tt, tt)
replace_or_append-AllPairs t (t' ∷ ts) h = elim (Bool-cases (t'.source_index == t.source_index)) [
  | inl e ↦
      rw (replace_or_append, e)
        (
          subst (λ i. All (λ (x : Transposition). i ≢ x.source_index) ts)
              (==_eq t'.source_index t.source_index e) h.0,
          h.1,
        )
  | inr e ↦
      rw (replace_or_append, e)
        (
          replace_or_append-All (λ i. t'.source_index ≢ i) t ts
              (differs t'.source_index t.source_index e) h.0,
          replace_or_append-AllPairs t ts h.1,
        )
]

module _ (source target : Container) (opens : ℕ → Bool) where
  -- A new file whose path is that of some old file, or of none
  pub IsOverlaid : ℕ → Type 0
  IsOverlaid i =
      (path : FilePath) × (j : ℕ) × (get_elem? source.files i ≡ some path)
      × (target_files_by_path target.files 0 path ≡ some j)

  pub IsNew : ℕ → Type 0
  IsNew i =
      (path : FilePath) × (get_elem? source.files i ≡ some path)
      × (target_files_by_path target.files 0 path ≡ none)

  pub record IsMarked (b : OverlayBowl) : Type 0 where
    pub overlays_once : AllPairs (λ i j. i ≢ j) b.overlay_files
    pub moves_once : AllPairs (λ i j. i ≢ j) b.move_files
    pub sources_once : AllPairs OtherSource b.transpositions
    pub overlaid : All IsOverlaid b.overlay_files
    pub new : All IsNew b.move_files

  mark_overlay-IsMarked :
      (i : ℕ) (b : OverlayBowl) → IsOverlaid i → IsMarked b → IsMarked (mark_overlay i b)
  unfolding mark_overlay
  mark_overlay-IsMarked i b h v = record {
    overlays_once = mark-AllPairs i b.overlay_files v.overlays_once;
    moves_once = v.moves_once;
    sources_once = v.sources_once;
    overlaid = mark-All IsOverlaid i b.overlay_files h v.overlaid;
    new = v.new;
  }

  mark_move-IsMarked : (i : ℕ) (b : OverlayBowl) → IsNew i → IsMarked b → IsMarked (mark_move i b)
  unfolding mark_move
  mark_move-IsMarked i b h v = record {
    overlays_once = v.overlays_once;
    moves_once = mark-AllPairs i b.move_files v.moves_once;
    sources_once = v.sources_once;
    overlaid = v.overlaid;
    new = mark-All IsNew i b.move_files h v.new;
  }

  get_writer-IsMarked :
      (i : ℕ) (b : OverlayBowl) → IsMarked b → IsMarked (get_writer source target opens i b).1
  unfolding get_writer IsOverlaid IsNew
  get_writer-IsMarked i b v = elim (Option-cases (get_elem? source.files i)) [
    | inl e ↦ rw (get_writer, e) v
    | inr (path, e) ↦ elim (Option-cases (target_files_by_path target.files 0 path)) [
      | inl e' ↦ rw (get_writer, e, e') (mark_move-IsMarked i b (path, e, e') v)
      | inr (j, e') ↦ elim (Bool-cases (opens j)) [
        | inl o ↦ rw (get_writer, e, e', o) (mark_overlay-IsMarked i b (path, j, e, e') v)
        | inr o ↦ rw (get_writer, e, e', o) (mark_overlay-IsMarked i b (path, j, e, e') v)
      ]
    ]
  ]

  run_call-IsMarked :
      (c : BowlCall) (b : OverlayBowl) → IsMarked b → IsMarked (run_call source target opens c b)
  unfolding run_call transpose
  run_call-IsMarked (call_get_writer i) b v = get_writer-IsMarked i b v
  run_call-IsMarked (call_transpose t) b v = record {
    overlays_once = v.overlays_once;
    moves_once = v.moves_once;
    sources_once = replace_or_append-AllPairs t b.transpositions v.sources_once;
    overlaid = v.overlaid;
    new = v.new;
  }

  -- Whatever calls a bowl gets, also those that fail or come again behind a resumed patch: no file
  -- is noted twice as an overlay, as a move or as the source of a transposition, the overlays are
  -- of files whose path some old file has, and the moves of files whose path none has.
  pub run_calls-IsMarked :
      (cs : List BowlCall) (b : OverlayBowl)
      → IsMarked b
      → IsMarked (run_calls source target opens cs b)
  unfolding run_calls
  run_calls-IsMarked [] b v = v
  run_calls-IsMarked (c ∷ cs) b v =
      run_calls-IsMarked cs (run_call source target opens c b) (run_call-IsMarked c b v)

-- The call that gets a writer again, or the transposition again, changes nothing more.
pub mark-mark : (i : ℕ) (js : List ℕ) → mark i (mark i js) ≡ mark i js
unfolding mark
mark-mark i [] = rw (==_refl i)
mark-mark i (j ∷ js) = elim (Bool-cases (j == i)) [
  | inl e ↦ rw (mark, e, e)
  | inr e ↦ rw (mark, e, e) (ap (λ x. j ∷ x) (mark-mark i js))
]
