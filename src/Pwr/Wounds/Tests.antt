-- ===== src/Pwr/Wounds/Tests.antt =====
-- Runs of the aggregation and the consumers of wounds (pwr/wounds.go).
use wharf.Base.{ℕ, ◌+◌, ◌≡◌, refl, true, List, [], ◌∷◌, All, arith}
use wharf.Pwr.Wounds.{
  Wound, WoundKind, file, dir, closed_file, aggregate_wounds, no_wounds, guardian, printer,
}
use wharf.Pwr.Wounds.Aggregate.{
  IsOf, covers, aggregate_wounds-covers, others, others-aggregate_wounds,
}
use wharf.Pwr.Wounds.Consumers.{first, sum_sizes, guardian-first}

abbrev wound : WoundKind → ℕ → ℕ → Wound
wound kind start end = record { kind = kind; index = 3; start = start; end = end }

abbrev wounds : List Wound
wounds =
    wound file 0 4
    ∷ wound file 4 8
    ∷ wound closed_file 8 12
    ∷ wound file 12 16
    ∷ wound dir 0 0
    ∷ wound file 20 24
    ∷ wound file 2 4
    ∷ []

aggregate_runs :
    aggregate_wounds 100 wounds
    ≡ wound file 0 8
      ∷ wound closed_file 8 12
      ∷ wound file 12 16
      ∷ wound dir 0 0
      ∷ wound file 20 24
      ∷ wound file 2 4
      ∷ []
unfolding aggregate_wounds
aggregate_runs = refl

All-IsOf_file : All (IsOf 3) wounds
All-IsOf_file = (
  λ e. (refl, omega arith),
  (
    λ e. (refl, omega arith),
    (
      λ e. (refl, omega arith),
      (
        λ e. (refl, omega arith),
        (λ e. (refl, omega arith), (λ e. (refl, omega arith), (λ e. (refl, omega arith), tt))),
      ),
    ),
  ),
)

aggregate_wounds-covers_example : covers 3 6 (aggregate_wounds 8 wounds) ≡ true
unfolding covers
aggregate_wounds-covers_example = aggregate_wounds-covers 3 6 8 wounds All-IsOf_file refl

others-aggregate_wounds_example : others (aggregate_wounds 8 wounds) ≡ others wounds
others-aggregate_wounds_example = others-aggregate_wounds 8 wounds

guardian-first_example :
    ((guardian wounds no_wounds).0 ≡ first (printer wounds no_wounds).0)
    × ((printer wounds no_wounds).1.total_corrupted ≡ 0 + sum_sizes (printer wounds no_wounds).0)
    × ((printer wounds no_wounds).1.has_wounds ≡ true)
unfolding printer
guardian-first_example = guardian-first wounds no_wounds
