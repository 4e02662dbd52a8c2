-- ===== src/Wire/Lengths.antt =====
-- The lengths before the messages (`encoding/binary`, as package wire uses it).
use wharf.Base.{
  ℕ, zero, suc, ◌+◌, ◌*◌, ◌/◌, ◌%◌, ◌^◌, ◌<◌, ◌≤◌, true, false, some, List, ◌∷◌, ◌++◌, length, ◌≡◌,
  ap, ap₂, ◌∙◌, ltb, ◌==◌, arith, Bool-cases, inl, inr,
}
use wharf.Wire.{put_uvarint, read_uvarint, Varint}

weights : (x q r w : ℕ) → (x + r * w) + q * (w * 128) ≡ x + (q * 128 + r) * w
weights x q r w = grind arith

weights_of : (x n w : ℕ) → (x + (n % 128 + 128) % 128 * w) + n / 128 * (w * 128) ≡ x + n * w
weights_of x n w =
    ap (λ r. (x + r * w) + n / 128 * (w * 128)) (digit n)
    ∙ weights x (n / 128) (n % 128) w
    ∙ ap (λ t. x + t * w) (whole n)
  where
    digit : (n : ℕ) → (n % 128 + 128) % 128 ≡ n % 128
    digit n = omega arith

    whole : (n : ℕ) → n / 128 * 128 + n % 128 ≡ n
    whole n = omega arith

eq_false : (i k : ℕ) → i < k → (i == k) ≡ false
eq_false i k h = ground (arith, h)

high : (n : ℕ) → ltb (n % 128 + 128) 128 ≡ false
high n = ground arith

abbrev read : ℕ → List ℕ → ℕ → Varint
read x rest count = record { result = some x; left = rest; count = count; overflows = false }

read_uvarint-last :
    (x w i b : ℕ) (rest : List ℕ)
    → i < 9
    → ltb b 128 ≡ true
    → read_uvarint x w i (b ∷ rest) ≡ read (x + b * w) rest (i + 1)
unfolding read_uvarint
read_uvarint-last x w i b rest h e =
    rw (read_uvarint, eq_false i 10 (omega (arith, h)), e, eq_false i 9 h)

read_uvarint-more :
    (x w i b : ℕ) (rest : List ℕ)
    → i < 9
    → ltb b 128 ≡ false
    → read_uvarint x w i (b ∷ rest) ≡ read_uvarint (x + b % 128 * w) (w * 128) (i + 1) rest
unfolding read_uvarint
read_uvarint-more x w i b rest h e = rw (read_uvarint, eq_false i 10 (omega (arith, h)), e)

-- The bytes of a number are read back, with what follows left, and each byte is counted.
pub read_uvarint-put_uvarint :
    (fuel n x w i : ℕ) (rest : List ℕ)
    → n < fuel
    → i + length (put_uvarint fuel n) < 10
    → read_uvarint x w i (put_uvarint fuel n ++ rest)
      ≡ read (x + n * w) rest (i + length (put_uvarint fuel n))
unfolding put_uvarint
read_uvarint-put_uvarint zero n x w i rest h = λ short. absurd (omega arith)
read_uvarint-put_uvarint (suc fuel) n x w i rest h = elim (Bool-cases (ltb n 128)) [
  | inl e ↦ rw (put_uvarint, e) (λ short. read_uvarint-last x w i n rest (omega (arith, short)) e)
  | inr e ↦
      rw (put_uvarint, e)
        (λ short.
          read_uvarint-more x w i (n % 128 + 128) (put_uvarint fuel (n / 128) ++ rest)
            (omega (arith, short)) (high n)
          ∙ read_uvarint-put_uvarint fuel (n / 128) (x + (n % 128 + 128) % 128 * w) (w * 128)
              (i + 1) rest (ground (arith, h, e)) (omega (arith, short))
          ∙ ap₂ (λ v c. read v rest c) (weights_of x n w) (omega arith))
]

abbrev bound : ℕ → ℕ
bound zero = 1
bound (suc k) = 128 * bound k

-- Seven bits a byte
length-put_uvarint : (fuel n k : ℕ) → n < bound (suc k) → length (put_uvarint fuel n) ≤ suc k
unfolding put_uvarint
length-put_uvarint zero n k h = omega arith
length-put_uvarint (suc fuel) n zero h = elim (Bool-cases (ltb n 128)) [
  | inl e ↦ rw (put_uvarint, e) (omega arith)
  | inr e ↦ absurd (ground (arith, h, e))
]
length-put_uvarint (suc fuel) n (suc k) h = elim (Bool-cases (ltb n 128)) [
  | inl e ↦ rw (put_uvarint, e) (omega arith)
  | inr e ↦
      rw (put_uvarint, e) (omega (arith, length-put_uvarint fuel (n / 128) k (omega (arith, h))))
]

pub put_uvarint-fits : (fuel n : ℕ) → n < 2 ^ 56 → length (put_uvarint fuel n) ≤ 8
put_uvarint-fits fuel n h = length-put_uvarint fuel n 7 h
