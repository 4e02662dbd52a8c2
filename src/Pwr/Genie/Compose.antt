-- ===== src/Pwr/Genie/Compose.antt =====
-- The compositions that the genie lists for a file (pwr/genie).
use wharf.Base.{
  ℕ, ◌+◌, ◌*◌, ◌≤◌, ◌<◌, ◌≡◌, refl, sym, ap, ◌∙◌, ◌&&◌, Option, none, some, List, [], ◌∷◌, ◌++◌,
  append-nil, append_assoc, length, nil_of_length, ltb, All, Bool-cases, Option-cases, inl, inr,
  arith,
}
use mathlib.Core.Path.{subst}
use wharf.Pwr.BlockMath.{block_size}
use wharf.Pwr.Genie.{
  SyncOp, block_range, fresh_data, hey_you_did_it, Origin, block_origin, fresh_origin, get_size,
  Composition, Analysis, Result, failed, analyzed, split, analyze, analyze_file, start,
}
use wharf.Pwr.Genie.Copied.{existing, copied_places, existing-op_places, some_inj}
use wharf.Pwr.Genie.Places.{
  Place, places, all_places, listed_places, listed_places-append, op_places, IsFull, Inv, split-Inv,
}

module _ (big_block_size : ℕ) where
  -- A last block, that may be short.
  abbrev pub IsShort : Composition → Type 0
  IsShort c = (0 < c.size) × (c.size ≤ big_block_size) × (length (all_places c.origins) ≡ c.size)

  -- Full blocks and one short block at most, whose origins are the places `total` in order.
  pub record IsComposed (listed : List Composition) (total : List Place) : Type 0 where
    pub fulls : List Composition
    pub tail : List Composition
    pub parted : listed ≡ fulls ++ tail
    pub full : All (IsFull big_block_size) fulls
    pub one : length tail ≤ 1
    pub short : All IsShort tail
    pub whole : listed_places listed ≡ total

  abbrev pub Composed : List Place → Result → Type 0
  Composed total r = (a : Analysis) × (r ≡ analyzed a) × IsComposed a.listed total

module _ (big_block_size : ℕ) (positive : 0 < big_block_size) where
  abbrev Done : List Place → Result → Type 0
  Done = Composed big_block_size

  finish-Composed :
      (file_size : ℕ) (ops : List SyncOp) (a : Analysis) (total : List Place)
      → 0 < file_size
      → Inv big_block_size positive a total
      → Done total (analyze big_block_size file_size (hey_you_did_it ∷ ops) a)
  unfolding analyze
  finish-Composed file_size ops a total pos v =
      elim (Bool-cases (ltb 0 a.comp.size && ltb 0 file_size)) [
        | inl c ↦
            rw (analyze, c)
              (
                record a { listed = a.listed ++ (a.comp ∷ []) },
                refl,
                record {
                  fulls = a.listed;
                  tail = a.comp ∷ [];
                  parted = refl;
                  full = v.full;
                  one = omega arith;
                  short = ((ground (arith, c), v.fits, v.sized), tt);
                  whole =
                      listed_places-append a.listed (a.comp ∷ [])
                      ∙ ap (λ x. listed_places a.listed ++ x)
                          (append-nil (all_places a.comp.origins))
                      ∙ v.whole;
                },
              )
        | inr c ↦
            rw (analyze, c)
              (
                a,
                refl,
                record {
                  fulls = a.listed;
                  tail = [];
                  parted = sym (append-nil a.listed);
                  full = v.full;
                  one = omega arith;
                  short = tt;
                  whole =
                      sym (append-nil (listed_places a.listed))
                      ∙ ap (λ x. listed_places a.listed ++ x)
                          (sym (
                            nil_of_length (all_places a.comp.origins)
                              (ground (arith, c, pos, v.sized))))
                      ∙ v.whole;
                },
              )
      ]

  step-Composed :
      (file_size : ℕ) (ops : List SyncOp) (o : Origin) (a : Analysis) (total : List Place)
      {ps : List Place}
      → ((b : Analysis) (total qs : List Place)
          → op_places ops ≡ some qs
          → Inv big_block_size positive b total
          → Done (total ++ qs) (analyze big_block_size file_size ops b))
      → elim (op_places ops) as (λ x. Option (List Place)) [
        | none ↦ none
        | some qs ↦ some (places o ++ qs)
      ]
        ≡ some ps
      → Inv big_block_size positive a total
      → Done (total ++ ps) (elim (split big_block_size (2 * get_size o + 2) o a) [
        | failed e listed ↦ failed e listed
        | analyzed b ↦ analyze big_block_size file_size ops b
      ])
  step-Composed file_size ops o a total {ps} next h v = elim (Option-cases (op_places ops)) [
    | inl e ↦ absurd (ground (arith, e))
    | inr (qs, e) ↦
        let (b, e', w) =
          split-Inv big_block_size positive (2 * get_size o + 2) o a total (omega arith) v in
        rw e' (
          subst (λ x. Done x (analyze big_block_size file_size ops b))
            (append_assoc total (places o) qs
              ∙ ap (λ x. total ++ x)
                  (some_inj (places o ++ qs) ps (
                    ap
                      (λ x. elim x as (λ x. Option (List Place)) [
                        | none ↦ none
                        | some qs ↦ some (places o ++ qs)
                      ])
                      (sym e)
                    ∙ h)))
            (next b (total ++ places o) qs e w))
  ]

  analyze-Composed :
      (file_size : ℕ) (ops : List SyncOp) (a : Analysis) (total ps : List Place)
      → 0 < file_size
      → op_places ops ≡ some ps
      → Inv big_block_size positive a total
      → Done (total ++ ps) (analyze big_block_size file_size ops a)
  unfolding analyze
  analyze-Composed file_size [] a total ps pos h v = absurd (cc)
  analyze-Composed file_size (hey_you_did_it ∷ ops) a total ps pos h v =
      subst (λ x. Done x (analyze big_block_size file_size (hey_you_did_it ∷ ops) a))
        (sym (append-nil total) ∙ ap (λ x. total ++ x) (some_inj [] ps h))
        (finish-Composed file_size ops a total pos v)
  analyze-Composed file_size (block_range f b s ∷ ops) a total ps pos h v =
      step-Composed file_size ops (block_origin f (b * block_size) (s * block_size)) a total
        (λ b t qs. analyze-Composed file_size ops b t qs pos) h v
  analyze-Composed file_size (fresh_data d ∷ ops) a total ps pos h v =
      step-Composed file_size ops (fresh_origin (length d)) a total
        (λ b t qs. analyze-Composed file_size ops b t qs pos) h v

  -- Of a file with bytes, whose operations end with the delimiter, for old files of any sizes: the
  -- analysis succeeds. All compositions that are listed but the last are of exactly one big block,
  -- and the last is of one at most, and not empty. Their places in order, without those that are
  -- behind the end of an old file, are where the bytes come from that the operations copy. (The
  -- genie counts 64 KiB for every block of a range, also for one that is short in the old file.)
  pub analyze_file-IsComposed :
      (sizes : ℕ → ℕ) (file_index file_size : ℕ) (ops : List SyncOp) (ps : List Place)
      → 0 < file_size
      → copied_places sizes ops ≡ some ps
      → (a : Analysis) × (counted : List Place) × (analyze_file big_block_size file_index file_size
            ops []
          ≡ analyzed a)
        × IsComposed big_block_size a.listed counted
        × (op_places ops ≡ some counted)
        × (existing sizes counted ≡ ps)
  unfolding analyze_file
  analyze_file-IsComposed sizes file_index file_size ops ps pos h =
      let (counted, e, same) = existing-op_places sizes ops ps h in
      let (a, done, composed) =
        analyze-Composed file_size ops (start big_block_size file_index []) [] counted pos e
          (record { whole = refl; sized = refl; fits = omega arith; full = tt }) in
      (a, counted, done, composed, e, same)
