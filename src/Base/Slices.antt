-- ===== src/Base/Slices.antt =====
-- Go's `s[from:to]` on a list.
use Prim.Native.Nat.{ℕ, ◌+◌, ◌-◌, ◌≤◌}
use mathlib.Core.Path.{◌≡◌, ap, sym, ◌∙◌}
use mathlib.Core.List.{List, ◌++◌}
use native.Mathlib.Omega.{arith}
use wharf.Base.Lists.{length, take, drop, length-take, length-drop, take-append-drop, drop-drop}

module _ {ℓ} {A : Type ℓ} where
  unfoldable pub slice : List A → ℕ → ℕ → List A
  slice xs from to = take (to - from) (drop from xs)

  pub length-slice : (xs : List A) (a b : ℕ) → b ≤ length xs → length (slice xs a b) ≡ b - a
  unfolding slice
  length-slice xs a b h = omega (arith, length-take (b - a) (drop a xs), length-drop a xs)

  -- A suffix is a slice and the suffix behind it.
  pub slice-append-drop : (xs : List A) (a b : ℕ) → a ≤ b → slice xs a b ++ drop b xs ≡ drop a xs
  unfolding slice
  slice-append-drop xs a b h =
      ap (λ t. take (b - a) (drop a xs) ++ t) (ap (λ n. drop n xs) e ∙ sym (drop-drop a (b - a) xs))
      ∙ take-append-drop (b - a) (drop a xs)
    where
      e : b ≡ a + (b - a)
      e = omega arith
