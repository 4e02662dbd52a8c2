-- ===== src/Pwr/Wounds/Consumers.antt =====
-- The consumers of pwr/wounds.go, compared with each other.
use wharf.Base.{
  ℕ, ◌+◌, ◌≡◌, refl, ◌∙◌, true, Option, none, some, List, [], ◌∷◌, arith, Bool-cases, inl, inr,
}
use wharf.Pwr.Wounds.{Wound, size, is_healthy, Tally, add, guardian, printer}

abbrev pub first : List Wound → Option Wound
first [] = none
first (w ∷ ws) = some w

abbrev pub sum_sizes : List Wound → ℕ
sum_sizes [] = 0
sum_sizes (w ∷ ws) = size w + sum_sizes ws

has_any : (ws : List Wound) → elim ws [ [] ↦ true | w ∷ ws ↦ true ] ≡ true
has_any [] = refl
has_any (w ∷ ws) = refl

-- The guardian's error is the first wound that the printer would print, and is none if there is
-- nothing to print. The printer's total grows by the sizes of what it prints, and it has wounds if
-- it had some or prints one.
pub guardian-first :
    (ws : List Wound) (t : Tally)
    → ((guardian ws t).0 ≡ first (printer ws t).0)
      × ((printer ws t).1.total_corrupted ≡ t.total_corrupted + sum_sizes (printer ws t).0)
      × ((printer ws t).1.has_wounds ≡ elim (printer ws t).0 [ [] ↦ t.has_wounds | w ∷ ws ↦ true ])
unfolding guardian printer
guardian-first [] t = (refl, omega arith, refl)
guardian-first (w ∷ ws) t = elim (Bool-cases (is_healthy w)) [
  | inl h ↦ rw (guardian, printer, h) (guardian-first ws t)
  | inr h ↦
      let rest = guardian-first ws (add w t) in
      rw (guardian, printer, h)
        (refl, omega (arith, rest.1), rest.2 ∙ has_any (printer ws (add w t)).0)
]
