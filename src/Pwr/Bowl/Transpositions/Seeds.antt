-- ===== src/Pwr/Bowl/Transpositions/Seeds.antt =====
-- The names with `.butler-rename-` of pwr/bowl/bowl_overlay.go, and the number that one ends with.
use wharf.Base.{
  ℕ, zero, suc, ◌+◌, ◌-◌, ◌*◌, ◌/◌, ◌%◌, ◌<◌, List, [], ◌∷◌, ◌++◌, ◌≡◌, ◌≢◌, refl, sym, ◌∙◌, ap,
  ltb, ◌==◌, if◌then◌else◌, arith, Bool-cases, inl, inr,
}
use wharf.Pwr.Bowl.{FilePath}
use wharf.Pwr.Bowl.Transpositions.{decimal, rename_suffix, safe_path}

-- The number behind the last dash
abbrev read_number : ℕ → List ℕ → ℕ
read_number acc [] = acc
read_number acc (c ∷ cs) = read_number (if c == 45 then 0 else acc * 10 + (c - 48)) cs

read_number-append :
    (acc : ℕ) (xs ys : List ℕ) → read_number acc (xs ++ ys) ≡ read_number (read_number acc xs) ys
read_number-append acc [] ys = refl
read_number-append acc (x ∷ xs) ys =
    read_number-append (if x == 45 then 0 else acc * 10 + (x - 48)) xs ys

read_digit : (acc r : ℕ) → (if (48 + r) == 45 then 0 else acc * 10 + ((48 + r) - 48)) ≡ acc * 10 + r
read_digit acc r = ground arith

read_number-decimal : (fuel n : ℕ) → n < fuel → read_number 0 (decimal fuel n) ≡ n
unfolding decimal
read_number-decimal zero n h = absurd (omega arith)
read_number-decimal (suc fuel) n h = elim (Bool-cases (ltb n 10)) [
  | inl e ↦ rw (decimal, e) (read_digit 0 n ∙ omega arith)
  | inr e ↦
      rw (decimal, e)
        (read_number-append 0 (decimal fuel (n / 10)) ((48 + n % 10) ∷ [])
          ∙ read_digit (read_number 0 (decimal fuel (n / 10))) (n % 10)
          ∙ ap (λ x. x * 10 + n % 10) (read_number-decimal fuel (n / 10) (ground (arith, e)))
          ∙ omega arith)
]

read_number-safe_path : (p : FilePath) (n : ℕ) → read_number 0 (safe_path p n) ≡ n
unfolding safe_path
read_number-safe_path p n =
    read_number-append 0 p (rename_suffix ++ decimal (suc n) n)
    ∙ read_number-append (read_number 0 p) rename_suffix (decimal (suc n) n)
    ∙ read_number-decimal (suc n) n (omega arith)

-- Names with different numbers are different, whatever stands before the suffix.
pub safe_path-apart : (p q : FilePath) (n k : ℕ) → n < k → safe_path p n ≢ safe_path q k
safe_path-apart p q n k h e = absurd (
    omega
      (arith, sym (read_number-safe_path p n) ∙ ap (read_number 0) e ∙ read_number-safe_path q k))
