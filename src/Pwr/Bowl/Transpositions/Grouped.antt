-- ===== src/Pwr/Bowl/Transpositions/Grouped.antt =====
-- One group of transpositions (pwr/bowl/bowl_overlay.go), all from the same old file.
use wharf.Base.{
  ℕ, ◌+◌, ◌≤◌, true, false, none, some, List, [], ◌∷◌, ◌≡◌, ◌≢◌, ◌∙◌, sym, arith, Bool-cases,
  Option-cases, inl, inr, bytes_equal, bytes_equal→eq, bytes_equal_refl,
}
use mathlib.Core.Path.{subst}
use wharf.Pwr.Bowl.{FilePath}
use wharf.Pwr.Bowl.Disk.{in_output, done, ◌>>◌, FileSystem, IsFileSystem}
use wharf.Pwr.Bowl.Disk.Moves.{Ok, seq-Ok, Moved}
use wharf.Pwr.Bowl.Transpositions.{
  PathTranspo, TranspoBehavior, transfer, copy_others, find_noop, finish_group,
  apply_multiple_transpositions,
}
use wharf.Pwr.Bowl.Transpositions.Copies.{
  in_output-apart, AllBut, AllOutputs, AllBut-weaken, AllBut-behind, AllOutputs-zip, Distinct,
  Holds, CopiedAll, copy_others-CopiedAll, transfer-Moved,
}

pub differs : (p q : FilePath) → bytes_equal p q ≡ false → p ≢ q
differs p q h e =
    subst (λ x. bytes_equal p x ≡ true → ⊥) (sym e) (λ t. absurd cc) (bytes_equal_refl p)

-- Where there is no file to leave in place, no output path is the target's.
find_noop-none :
    (target : FilePath) (i : ℕ) (ts : List PathTranspo)
    → find_noop target i ts ≡ none
    → AllOutputs (λ o. target ≢ o) ts
unfolding find_noop
find_noop-none target i [] = λ h. tt
find_noop-none target i (t ∷ ts) = elim (Bool-cases (bytes_equal target t.output_path)) [
  | inl e ↦ rw (find_noop, e) (λ h. absurd cc)
  | inr e ↦
      rw (find_noop, e) (λ h. (differs target t.output_path e, find_noop-none target (i + 1) ts h))
]

-- The file that stays: the others have other output paths, and together they are all.
record Stays (target : FilePath) (k i : ℕ) (ts : List PathTranspo) : Type 1 where
  reached : i ≤ k
  apart : AllBut (λ o. target ≢ o) k i ts
  whole : (P : FilePath → Type 0) → P target → AllBut P k i ts → AllOutputs P ts

Stays-first :
    (target : FilePath) (i : ℕ) (t : PathTranspo) (ts : List PathTranspo)
    → Distinct (t ∷ ts)
    → target ≡ t.output_path
    → Stays target i i (t ∷ ts)
Stays-first target i t ts distinct e = record {
  reached = omega arith;
  apart = (
    λ x. absurd (ground (arith, x)),
    AllBut-weaken (λ o. target ≢ o) i (i + 1) ts
        (subst (λ x. AllOutputs (λ o. x ≢ o) ts) (sym e) distinct.0),
  );
  whole = λ P p all. (subst P e p, AllBut-behind P i (i + 1) ts (omega arith) all.1);
}

find_noop-Stays :
    (target : FilePath) (i k : ℕ) (ts : List PathTranspo)
    → Distinct ts
    → find_noop target i ts ≡ some k
    → Stays target k i ts
unfolding find_noop
find_noop-Stays target i k [] distinct = λ h. absurd cc
find_noop-Stays target i k (t ∷ ts) distinct =
    elim (Bool-cases (bytes_equal target t.output_path)) [
      | inl e ↦
          rw (find_noop, e)
            (λ h.
              subst (λ x. Stays target x i (t ∷ ts)) (cc)
                (Stays-first target i t ts distinct (bytes_equal→eq target t.output_path e)))
      | inr e ↦
          rw (find_noop, e)
            (λ h.
              let v = find_noop-Stays target (i + 1) k ts distinct.1 h in
              record {
                reached = omega (arith, v.reached);
                apart = (λ x. differs target t.output_path e, v.apart);
                whole = λ P p all. (all.0 (ground (arith, v.reached)), v.whole P p all.1);
              })
    ]

-- Behind a group: every output path holds what the old file held, and the paths that are no output
-- path and not the old file's are as they were.
pub record Placed {D : Type 0} (fs : FileSystem D) (target : FilePath) (ts : List PathTranspo)
    (d d' : D) : Type 0 where
  pub filled : AllOutputs (Holds fs target d d') ts
  pub keeps :
      (q : FilePath)
      → q ≢ target
      → AllOutputs (λ o. q ≢ o) ts
      → fs.read (in_output q) d' ≡ fs.read (in_output q) d

module _ {D : Type 0} (fs : FileSystem D) (law : IsFileSystem fs) (behavior : TranspoBehavior)
    (target : FilePath) where
  -- The copies without the first, and then the first
  Placed-first :
      (t : PathTranspo) (ts : List PathTranspo) (d d' d'' : D)
      → target ≢ t.output_path
      → AllOutputs (λ o. target ≢ o) ts
      → AllOutputs (λ o. t.output_path ≢ o) ts
      → CopiedAll fs target 0 0 (t ∷ ts) d d'
      → Moved fs (in_output target) (in_output t.output_path) d' d''
      → Placed fs target (t ∷ ts) d d''
  Placed-first t ts d d' d'' ne apart fresh v w = record {
    filled = (
      w.same ∙ v.keeps target (AllBut-weaken (λ o. target ≢ o) 0 0 (t ∷ ts) (ne, apart)),
      AllOutputs-zip (λ p. (target ≢ p) × (t.output_path ≢ p)) (Holds fs target d d')
          (Holds fs target d d'') ts
          (λ p ne' h.
            w.keeps (in_output p) (in_output-apart p target (λ e. ne'.0 (sym e)))
              (in_output-apart p t.output_path (λ e. ne'.1 (sym e)))
            ∙ h)
          (AllOutputs-zip (λ p. target ≢ p) (λ p. t.output_path ≢ p)
            (λ p. (target ≢ p) × (t.output_path ≢ p)) ts (λ p a b. (a, b)) apart fresh)
          (AllBut-behind (Holds fs target d d') 0 1 ts (omega arith) v.filled.1),
    );
    keeps = λ q ne' h.
        w.keeps (in_output q) (in_output-apart q target ne') (in_output-apart q t.output_path h.0)
        ∙ v.keeps q (AllBut-weaken (λ o. q ≢ o) 0 0 (t ∷ ts) h);
  }

  -- No file stays: the first output path is filled last.
  multiple-first :
      (t : PathTranspo) (ts : List PathTranspo) (d : D)
      → Distinct (t ∷ ts)
      → AllOutputs (λ o. target ≢ o) (t ∷ ts)
      → Ok
          (copy_others fs target 0 0 (t ∷ ts) >> transfer fs behavior target t.output_path)
          d
          (Placed fs target (t ∷ ts) d)
  multiple-first t ts d distinct apart =
      seq-Ok (Placed fs target (t ∷ ts) d) (CopiedAll fs target 0 0 (t ∷ ts) d)
        (copy_others fs target 0 0 (t ∷ ts)) (transfer fs behavior target t.output_path) d
        (copy_others-CopiedAll fs law target 0 0 (t ∷ ts) d distinct
          (AllBut-weaken (λ o. target ≢ o) 0 0 (t ∷ ts) apart))
        (λ d' v h.
          Placed-first t ts d d' (transfer fs behavior target t.output_path d').1 apart.0 apart.1
            distinct.0 v (transfer-Moved fs law target behavior t.output_path d' apart.0 h))

  -- One file stays: the others are copied from it.
  multiple-Stays :
      (k : ℕ) (ts : List PathTranspo) (d : D)
      → Distinct ts
      → Stays target k 0 ts
      → Ok (copy_others fs target k 0 ts >> done) d (Placed fs target ts d)
  multiple-Stays k ts d distinct stays =
      seq-Ok (Placed fs target ts d) (CopiedAll fs target k 0 ts d) (copy_others fs target k 0 ts)
        done d (copy_others-CopiedAll fs law target k 0 ts d distinct stays.apart)
        (λ d' v h. record {
          filled = stays.whole (Holds fs target d d') (v.keeps target stays.apart) v.filled;
          keeps = λ q ne h. v.keeps q (AllBut-weaken (λ o. q ≢ o) k 0 ts h);
        })

  from_first :
      (ts : List PathTranspo) (d : D)
      → Distinct ts
      → AllOutputs (λ o. target ≢ o) ts
      → Ok
          (copy_others fs target 0 0 ts >> finish_group fs behavior target ts none)
          d
          (Placed fs target ts d)
  unfolding finish_group copy_others
  from_first [] d distinct apart = λ h. absurd cc
  from_first (t ∷ ts) d distinct apart = multiple-first t ts d distinct apart

  pub multiple-Placed :
      (ts : List PathTranspo) (d : D)
      → Distinct ts
      → Ok (apply_multiple_transpositions fs behavior target ts) d (Placed fs target ts d)
  unfolding apply_multiple_transpositions finish_group
  multiple-Placed ts d distinct = elim (Option-cases (find_noop target 0 ts)) [
    | inl e ↦
        rw (apply_multiple_transpositions, e)
          (from_first ts d distinct (find_noop-none target 0 ts e))
    | inr (k, e) ↦
        rw (apply_multiple_transpositions, e)
          (multiple-Stays k ts d distinct (find_noop-Stays target 0 k ts distinct e))
  ]
