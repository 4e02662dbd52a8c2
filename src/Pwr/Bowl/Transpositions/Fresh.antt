-- ===== src/Pwr/Bowl/Transpositions/Fresh.antt =====
-- The names behind the second loop of `applyTranspositions` (pwr/bowl/bowl_overlay.go) do not clash.
use wharf.Base.{
  ℕ, suc, ◌≤◌, Bool, true, false, List, [], ◌∷◌, All, All-zip, ◌≡◌, ◌≢◌, ◌⊎◌, sym, arith,
  Bool-cases, inl, inr, bytes_equal, bytes_equal→eq, if◌then◌else◌,
}
use mathlib.Core.Path.{subst}
use wharf.Pwr.Bowl.{FilePath}
use wharf.Pwr.Bowl.Transpositions.{PathTranspo, safe_path}
use wharf.Pwr.Bowl.Transpositions.Copies.{AllOutputs, Distinct}
use wharf.Pwr.Bowl.Transpositions.CleanUp.{Beside, Clean}
use wharf.Pwr.Bowl.Transpositions.Seeds.{safe_path-apart}
use wharf.Pwr.Bowl.Transpositions.Renamed.{Plain, wait, clashes, renamed, renames}

contradict : (b c : Bool) → b ≡ false → c ≡ true → (if b then false else c) ≡ false → ⊥
contradict true c h h' = λ x. absurd cc
contradict false c h h' = λ x. absurd cc

module _ (is_target : FilePath → Bool) where
  renamed-Plain :
      (p : FilePath) (n : ℕ) (ts : List PathTranspo)
      → Plain p
      → AllOutputs (λ o. p ≢ o) ts
      → AllOutputs (λ o. p ≢ o) (renamed is_target n ts)
  renamed-Plain p n [] plain h = tt
  renamed-Plain p n (t ∷ ts) plain h = elim (Bool-cases (clashes is_target t)) [
    | inl e ↦ rw (renamed, e) (plain t.output_path (suc n), renamed-Plain p (suc n) ts plain h.1)
    | inr e ↦ rw (renamed, e) (h.0, renamed-Plain p n ts plain h.1)
  ]

  renamed-safe :
      (p : FilePath) (k n : ℕ) (ts : List PathTranspo)
      → k ≤ n
      → AllOutputs Plain ts
      → AllOutputs (λ o. safe_path p k ≢ o) (renamed is_target n ts)
  renamed-safe p k n [] le h = tt
  renamed-safe p k n (t ∷ ts) le h = elim (Bool-cases (clashes is_target t)) [
    | inl e ↦
        rw (renamed, e)
          (
            safe_path-apart p t.output_path k (suc n) (omega arith),
            renamed-safe p k (suc n) ts (omega arith) h.1,
          )
    | inr e ↦ rw (renamed, e) ((λ x. h.0 p k (sym x)), renamed-safe p k n ts le h.1)
  ]

  pub renamed-Distinct :
      (n : ℕ) (ts : List PathTranspo)
      → Distinct ts
      → AllOutputs Plain ts
      → Distinct (renamed is_target n ts)
  renamed-Distinct n [] distinct h = tt
  renamed-Distinct n (t ∷ ts) distinct h = elim (Bool-cases (clashes is_target t)) [
    | inl e ↦
        rw (renamed, e)
          (
            renamed-safe t.output_path (suc n) (suc n) ts (omega arith) h.1,
            renamed-Distinct (suc n) ts distinct.1 h.1,
          )
    | inr e ↦
        rw (renamed, e)
          (renamed-Plain t.output_path n ts h.0 distinct.0, renamed-Distinct n ts distinct.1 h.1)
  ]

  renames-Plain :
      (p : FilePath) (n : ℕ) (ts : List PathTranspo)
      → Plain p
      → AllOutputs (λ o. p ≢ o) ts
      → All (Beside p) (renames is_target n ts)
  renames-Plain p n [] plain h = tt
  renames-Plain p n (t ∷ ts) plain h = elim (Bool-cases (clashes is_target t)) [
    | inl e ↦
        rw (renames, e)
          (
            record { old = plain t.output_path (suc n); new = h.0 },
            renames-Plain p (suc n) ts plain h.1,
          )
    | inr e ↦ rw (renames, e) (renames-Plain p n ts plain h.1)
  ]

  renames-behind :
      (t : PathTranspo) (k n : ℕ) (ts : List PathTranspo)
      → k ≤ n
      → Plain t.output_path
      → All (λ (r : PathTranspo). Beside r.target_path (wait t k)) (renames is_target n ts)
  renames-behind t k n [] le plain = tt
  renames-behind t k n (t' ∷ ts) le plain = elim (Bool-cases (clashes is_target t')) [
    | inl e ↦
        rw (renames, e)
          (
            record {
              old =
                  λ x. safe_path-apart t.output_path t'.output_path k (suc n) (omega arith) (sym x);
              new = λ x. plain t'.output_path (suc n) (sym x);
            },
            renames-behind t k (suc n) ts (omega arith) plain,
          )
    | inr e ↦ rw (renames, e) (renames-behind t k n ts le plain)
  ]

  pub renames-Clean :
      (n : ℕ) (ts : List PathTranspo)
      → Distinct ts
      → AllOutputs Plain ts
      → Clean (renames is_target n ts)
  renames-Clean n [] distinct h = tt
  renames-Clean n (t ∷ ts) distinct h = elim (Bool-cases (clashes is_target t)) [
    | inl e ↦
        rw (renames, e)
          (
            (λ x. h.0 t.output_path (suc n) (sym x)),
            renames-Plain t.output_path (suc n) ts h.0 distinct.0,
            renames-behind t (suc n) (suc n) ts (omega arith) h.0,
            renames-Clean (suc n) ts distinct.1 h.1,
          )
    | inr e ↦ rw (renames, e) (renames-Clean n ts distinct.1 h.1)
  ]

  renames-wait :
      (n : ℕ) (t : PathTranspo) (ts : List PathTranspo)
      → clashes is_target t ≡ true
      → renames is_target n (t ∷ ts) ≡ wait t (suc n) ∷ renames is_target (suc n) ts
  renames-wait n t ts e = rw (renames, e)

  renames-stay :
      (n : ℕ) (t : PathTranspo) (ts : List PathTranspo)
      → clashes is_target t ≡ false
      → renames is_target n (t ∷ ts) ≡ renames is_target n ts
  renames-stay n t ts e = rw (renames, e)

  -- A new file that is not renamed is not touched by the renames.
  abbrev pub Unmoved : List PathTranspo → PathTranspo → Type 0
  Unmoved rs t = clashes is_target t ≡ false → All (Beside t.output_path) rs

  pub renames-Unmoved :
      (n : ℕ) (ts : List PathTranspo)
      → Distinct ts
      → AllOutputs Plain ts
      → All (Unmoved (renames is_target n ts)) ts
  renames-Unmoved n [] distinct h = tt
  renames-Unmoved n (t ∷ ts) distinct h = elim (Bool-cases (clashes is_target t)) [
    | inl e ↦
        subst (λ rs. All (Unmoved rs) (t ∷ ts)) (sym (renames-wait n t ts e))
          (
            (λ x. absurd cc),
            All-zip (λ (t' : PathTranspo). (t.output_path ≢ t'.output_path) × Plain t'.output_path)
                (Unmoved (renames is_target (suc n) ts))
                (Unmoved (wait t (suc n) ∷ renames is_target (suc n) ts)) ts
                (λ t' a b x.
                  (record { old = a.1 t.output_path (suc n); new = λ y. a.0 (sym y) }, b x))
                (All-zip (λ (t' : PathTranspo). t.output_path ≢ t'.output_path)
                  (λ (t' : PathTranspo). Plain t'.output_path)
                  (λ (t' : PathTranspo). (t.output_path ≢ t'.output_path) × Plain t'.output_path) ts
                  (λ t' a b. (a, b)) distinct.0 h.1)
                (renames-Unmoved (suc n) ts distinct.1 h.1),
          )
    | inr e ↦
        subst (λ rs. All (Unmoved rs) (t ∷ ts)) (sym (renames-stay n t ts e))
          (
            (λ x. renames-Plain t.output_path n ts h.0 distinct.0),
            renames-Unmoved n ts distinct.1 h.1,
          )
  ]

  -- Behind the loop, a new name is the old file's own, or it is no old file's.
  abbrev pub Safe : PathTranspo → Type 0
  Safe t =
      (t.target_path ≡ t.output_path)
      ⊎ ((key : FilePath) → Plain key → is_target key ≡ true → key ≢ t.output_path)

  not_target : (t : PathTranspo) → clashes is_target t ≡ false → Safe t
  not_target t h = elim (Bool-cases (bytes_equal t.target_path t.output_path)) [
    | inl e ↦ inl (bytes_equal→eq t.target_path t.output_path e)
    | inr e ↦ inr (λ key plain k x.
        contradict (bytes_equal t.target_path t.output_path) (is_target t.output_path) e
          (subst (λ y. is_target y ≡ true) x k) h)
  ]

  pub renamed-Safe : (n : ℕ) (ts : List PathTranspo) → All Safe (renamed is_target n ts)
  renamed-Safe n [] = tt
  renamed-Safe n (t ∷ ts) = elim (Bool-cases (clashes is_target t)) [
    | inl e ↦
        rw (renamed, e) (inr (λ key plain k. plain t.output_path (suc n)), renamed-Safe (suc n) ts)
    | inr e ↦ rw (renamed, e) (not_target t e, renamed-Safe n ts)
  ]
