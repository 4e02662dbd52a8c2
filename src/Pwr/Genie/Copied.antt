-- ===== src/Pwr/Genie/Copied.antt =====
-- What the genie counts operations for, and what the operations copy (pwr/genie, and
-- `ApplySingleFull` of wsync/algo.go).
use wharf.Base.{
  ℕ, zero, suc, ◌+◌, ◌-◌, ◌*◌, ◌≡◌, refl, sym, ap, ◌∙◌, min, true, false, Option, none, some, List,
  [], ◌∷◌, ◌++◌, length, ltb, if◌then◌else◌, Option-cases, inl, inr, arith,
}
use wharf.Pwr.BlockMath.{block_size}
use wharf.Pwr.Genie.{SyncOp, block_range, fresh_data, hey_you_did_it}
use wharf.Pwr.Genie.Places.{Place, old_byte, fresh_byte, places_from, fresh_places, op_places}

pub some_inj : (x y : List Place) → ◌≡◌ {A = Option (List Place)} (some x) (some y) → x ≡ y
some_inj x y h = cc

abbrev pub behind : List Place → Option (List Place) → Option (List Place)
behind first none = none
behind first (some ps) = some (first ++ ps)

-- The sizes of the old files
module _ (sizes : ℕ → ℕ) where
  -- Without the places behind the end of an old file
  abbrev pub existing : List Place → List Place
  existing [] = []
  existing (fresh_byte ∷ ps) = fresh_byte ∷ existing ps
  existing (old_byte file offset ∷ ps) =
      let rest = existing ps in
      if ltb offset (sizes file) then old_byte file offset ∷ rest else rest

  -- Where the bytes come from that the operations of a file stand for, up to the delimiter: a range
  -- copies no more than its file has.
  abbrev pub copied_places : List SyncOp → Option (List Place)
  copied_places [] = none
  copied_places (block_range file block span ∷ ops) =
      let offset = block * block_size in
      behind (places_from file offset (min (span * block_size) (sizes file - offset)))
        (copied_places ops)
  copied_places (fresh_data d ∷ ops) = behind (fresh_places (length d)) (copied_places ops)
  copied_places (hey_you_did_it ∷ ops) = some []

  existing-fresh :
      (n : ℕ) (ps qs : List Place)
      → existing ps ≡ qs
      → existing (fresh_places n ++ ps) ≡ fresh_places n ++ qs
  existing-fresh zero ps qs e = e
  existing-fresh (suc n) ps qs e = ap (λ x. fresh_byte ∷ x) (existing-fresh n ps qs e)

  existing-places_from :
      (file offset n m : ℕ) (ps qs : List Place)
      → existing ps ≡ qs
      → m ≡ min n (sizes file - offset)
      → existing (places_from file offset n ++ ps) ≡ places_from file offset m ++ qs
  existing-places_from file offset zero zero ps qs e h = e
  existing-places_from file offset zero (suc m) ps qs e h = absurd (omega (arith, h))
  existing-places_from file offset (suc n) zero ps qs e h =
      let behind : ltb offset (sizes file) ≡ false = ground (arith, h) in
      rw behind (existing-places_from file (offset + 1) n zero ps qs e (omega (arith, h)))
  existing-places_from file offset (suc n) (suc m) ps qs e h =
      let within : ltb offset (sizes file) ≡ true = ground (arith, h) in
      rw within (
        ap (λ x. old_byte file offset ∷ x)
          (existing-places_from file (offset + 1) n m ps qs e (omega (arith, h))))

  -- The places that are counted and exist are those that are copied.
  pub existing-op_places :
      (ops : List SyncOp) (ps : List Place)
      → copied_places ops ≡ some ps
      → (qs : List Place) × (op_places ops ≡ some qs) × (existing qs ≡ ps)
  existing-op_places [] ps e = absurd (cc)
  existing-op_places (hey_you_did_it ∷ ops) ps e = ([], refl, some_inj [] ps e)
  existing-op_places (fresh_data d ∷ ops) ps e = elim (Option-cases (copied_places ops)) [
    | inl f ↦ absurd (ground (arith, e, f))
    | inr (rs, f) ↦
        let (qs, counted, same) = existing-op_places ops rs f in
        (
          fresh_places (length d) ++ qs,
          rw counted,
          existing-fresh (length d) qs rs same
              ∙ some_inj (fresh_places (length d) ++ rs) ps
                  (ap (behind (fresh_places (length d))) (sym f) ∙ e),
        )
  ]
  existing-op_places (block_range file block span ∷ ops) ps e =
      elim (Option-cases (copied_places ops)) [
        | inl f ↦ absurd (ground (arith, e, f))
        | inr (rs, f) ↦
            let (qs, counted, same) = existing-op_places ops rs f in
            let copied =
              places_from file (block * block_size)
                (min (span * block_size) (sizes file - block * block_size)) in
            (
              places_from file (block * block_size) (span * block_size) ++ qs,
              rw counted,
              existing-places_from file (block * block_size) (span * block_size)
                    (min (span * block_size) (sizes file - block * block_size)) qs rs same refl
                  ∙ some_inj (copied ++ rs) ps (ap (behind copied) (sym f) ∙ e),
            )
      ]
