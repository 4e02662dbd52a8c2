-- ===== src/Pwr/Bowl/Transpositions/Copies.antt =====
-- The copies of `applyMultipleTranspositions` (pwr/bowl/bowl_overlay.go), made from one old file.
use wharf.Base.{
  ℕ, ◌+◌, ◌<◌, true, false, List, [], ◌∷◌, All, ◌≡◌, ◌≢◌, ◌∙◌, refl, ap, ◌==◌, arith, Bool-cases,
  inl, inr,
}
use wharf.Pwr.Bowl.{FilePath}
use wharf.Pwr.Bowl.Disk.{
  Place, in_output, in_stage, if_needed, never, FileSystem, IsFileSystem, copy,
}
use wharf.Pwr.Bowl.Disk.Moves.{Ok, seq-Ok, Copied, Moved, copy-Copied, move-Moved}
use wharf.Pwr.Bowl.Transpositions.{
  PathTranspo, TranspoBehavior, behavior_move, behavior_copy, transfer, copy_others,
}

unwrap : Place → FilePath
unwrap (in_output p) = p
unwrap (in_stage p) = p

pub in_output-apart : (p q : FilePath) → p ≢ q → in_output p ≢ in_output q
unfolding unwrap
in_output-apart p q ne e = ne (ap unwrap e)

-- A predicate of the output paths, but for that at one index
abbrev pub AllBut : (FilePath → Type 0) → ℕ → ℕ → List PathTranspo → Type 0
AllBut P skipped i [] = Unit
AllBut P skipped i (t ∷ ts) =
    ((i == skipped) ≡ false → P t.output_path) × AllBut P skipped (i + 1) ts

abbrev pub AllOutputs : (FilePath → Type 0) → List PathTranspo → Type 0
AllOutputs P ts = All (λ (t : PathTranspo). P t.output_path) ts

-- No two of the output paths are the same.
abbrev pub Distinct : List PathTranspo → Type 0
Distinct [] = Unit
Distinct (t ∷ ts) = AllOutputs (λ o. t.output_path ≢ o) ts × Distinct ts

pub AllBut-weaken :
    (P : FilePath → Type 0) (k i : ℕ) (ts : List PathTranspo) → AllOutputs P ts → AllBut P k i ts
AllBut-weaken P k i [] h = tt
AllBut-weaken P k i (t ∷ ts) h = (λ e. h.0, AllBut-weaken P k (i + 1) ts h.1)

-- An index that is behind leaves none out.
pub AllBut-behind :
    (P : FilePath → Type 0) (k i : ℕ) (ts : List PathTranspo)
    → k < i
    → AllBut P k i ts
    → AllOutputs P ts
AllBut-behind P k i [] lt h = tt
AllBut-behind P k i (t ∷ ts) lt h =
    (h.0 (ground arith), AllBut-behind P k (i + 1) ts (omega arith) h.1)

pub AllOutputs-map :
    (P Q : FilePath → Type 0) (ts : List PathTranspo)
    → ((p : FilePath) → P p → Q p)
    → AllOutputs P ts
    → AllOutputs Q ts
AllOutputs-map P Q [] f h = tt
AllOutputs-map P Q (t ∷ ts) f h = (f t.output_path h.0, AllOutputs-map P Q ts f h.1)

pub AllOutputs-zip :
    (P Q R : FilePath → Type 0) (ts : List PathTranspo)
    → ((p : FilePath) → P p → Q p → R p)
    → AllOutputs P ts
    → AllOutputs Q ts
    → AllOutputs R ts
AllOutputs-zip P Q R [] f h h' = tt
AllOutputs-zip P Q R (t ∷ ts) f h h' =
    (f t.output_path h.0 h'.0, AllOutputs-zip P Q R ts f h.1 h'.1)

AllBut-map :
    (P Q : FilePath → Type 0) (k i : ℕ) (ts : List PathTranspo)
    → ((p : FilePath) → P p → Q p)
    → AllBut P k i ts
    → AllBut Q k i ts
AllBut-map P Q k i [] f h = tt
AllBut-map P Q k i (t ∷ ts) f h = (λ e. f t.output_path (h.0 e), AllBut-map P Q k (i + 1) ts f h.1)

module _ {D : Type 0} (fs : FileSystem D) where
  -- The file's content on the second disk is that of the old file on the first.
  abbrev pub Holds : FilePath → D → D → FilePath → Type 0
  Holds target d d' p = fs.read (in_output p) d' ≡ fs.read (in_output target) d

  pub record CopiedAll (target : FilePath) (k i : ℕ) (ts : List PathTranspo) (d d' : D)
      : Type 0 where
    pub filled : AllBut (Holds target d d') k i ts
    pub keeps :
        (q : FilePath)
        → AllBut (λ o. q ≢ o) k i ts
        → fs.read (in_output q) d' ≡ fs.read (in_output q) d

module _ {D : Type 0} (fs : FileSystem D) (law : IsFileSystem fs) (target : FilePath) where
  CopiedAll-step :
      (k i : ℕ) (t : PathTranspo) (ts : List PathTranspo) (d d' d'' : D)
      → target ≢ t.output_path
      → AllOutputs (λ o. t.output_path ≢ o) ts
      → (i == k) ≡ false
      → Copied fs (in_output target) (in_output t.output_path) d d'
      → CopiedAll fs target k (i + 1) ts d' d''
      → CopiedAll fs target k i (t ∷ ts) d d''
  CopiedAll-step k i t ts d d' d'' ne fresh eq v w =
      let target_keeps = v.keeps (in_output target) (in_output-apart target t.output_path ne) in
      record {
        filled = (
          λ e.
              w.keeps t.output_path (AllBut-weaken (λ o. t.output_path ≢ o) k (i + 1) ts fresh)
              ∙ v.same,
          AllBut-map (Holds fs target d' d'') (Holds fs target d d'') k (i + 1) ts
              (λ p h. h ∙ target_keeps) w.filled,
        );
        keeps =
            λ q h. w.keeps q h.1 ∙ v.keeps (in_output q) (in_output-apart q t.output_path (h.0 eq));
      }

  CopiedAll-skip :
      (k i : ℕ) (t : PathTranspo) (ts : List PathTranspo) (d d' : D)
      → (i == k) ≡ true
      → CopiedAll fs target k (i + 1) ts d d'
      → CopiedAll fs target k i (t ∷ ts) d d'
  CopiedAll-skip k i t ts d d' eq w = record {
    filled = (λ e. absurd cc, w.filled);
    keeps = λ q h. w.keeps q h.1;
  }

  pub copy_others-CopiedAll :
      (k i : ℕ) (ts : List PathTranspo) (d : D)
      → Distinct ts
      → AllBut (λ o. target ≢ o) k i ts
      → Ok (copy_others fs target k i ts) d (CopiedAll fs target k i ts d)
  unfolding copy_others
  copy_others-CopiedAll k i [] d distinct apart = λ h. record { filled = tt; keeps = λ q h. refl }
  copy_others-CopiedAll k i (t ∷ ts) d distinct apart = elim (Bool-cases (i == k)) [
    | inl e ↦
        rw (copy_others, e)
          (λ h.
            CopiedAll-skip k i t ts d (copy_others fs target k (i + 1) ts d).1 e
              (copy_others-CopiedAll k (i + 1) ts d distinct.1 apart.1 h))
    | inr e ↦
        rw (copy_others, e)
          (seq-Ok (CopiedAll fs target k i (t ∷ ts) d)
            (Copied fs (in_output target) (in_output t.output_path) d)
            (copy fs (in_output target) (in_output t.output_path) if_needed)
            (copy_others fs target k (i + 1) ts) d
            (copy-Copied fs law (in_output target) (in_output t.output_path)
              (in_output-apart target t.output_path (apart.0 e)) if_needed d)
            (λ d' v h.
              CopiedAll-step k i t ts d d' (copy_others fs target k (i + 1) ts d').1 (apart.0 e)
                distinct.0 e v (copy_others-CopiedAll k (i + 1) ts d' distinct.1 apart.1 h)))
  ]

  -- A copy or a move, whichever the pending overlays ask for
  pub transfer-Moved :
      (behavior : TranspoBehavior) (new : FilePath) (d : D)
      → target ≢ new
      → Ok (transfer fs behavior target new) d (Moved fs (in_output target) (in_output new) d)
  unfolding transfer
  transfer-Moved behavior_move new d ne =
      move-Moved fs law (in_output target) (in_output new) (in_output-apart target new ne) d
  transfer-Moved behavior_copy new d ne = λ h.
      let v =
        copy-Copied fs law (in_output target) (in_output new) (in_output-apart target new ne) never
          d h in
      record { same = v.same; keeps = λ q ne ne'. v.keeps q ne' }
