-- ===== src/Wsync/Rolling/Window.antt =====
-- The weak hash of a window and of the next one (wsync/hashes.go, wsync/algo.go).
use wharf.Base.{
  ℕ, suc, ◌+◌, ◌*◌, ◌%◌, ◌^◌, ◌<◌, ◌≡◌, ◌∙◌, ap, List, [], ◌∷◌, ◌++◌, length, length-append, arith,
}
use wharf.Wsync.Rolling.{m_const, u32, weight, beta_loop, beta_hash, roll}

-- The two sums of the rsync paper, without any modulus.
unfoldable pub sum : List ℕ → ℕ
sum [] = 0
sum (x ∷ xs) = x + sum xs

unfoldable pub weighted_sum : List ℕ → ℕ
weighted_sum [] = 0
weighted_sum (x ∷ xs) = length (x ∷ xs) * x + weighted_sum xs

beta_loop-sum :
    (len i a b : ℕ) (xs : List ℕ) → (beta_loop len i a b xs).0 % m_const ≡ (a + sum xs) % m_const
unfolding beta_loop sum
beta_loop-sum len i a b [] = omega arith
beta_loop-sum len i a b (x ∷ xs) = beta_loop-sum len (i + 1) (u32 (a + x)) _ xs ∙ omega arith

weight-product : (w v l : ℕ) → w ≡ l → w * v ≡ l * v
weight-product w v l e = ap (λ t. t * v) e

beta_loop-weighted_sum :
    (len i a b : ℕ) (xs : List ℕ)
    → i + length xs ≡ len
    → len < 2 ^ 32
    → (beta_loop len i a b xs).1 % m_const ≡ (b + weighted_sum xs) % m_const
unfolding beta_loop weighted_sum
beta_loop-weighted_sum len i a b [] e h = omega arith
beta_loop-weighted_sum len i a b (x ∷ xs) e h =
    beta_loop-weighted_sum len (i + 1) _ (u32 (b + u32 (weight len i * x))) xs (omega arith) h
    ∙ omega (arith, weight-product (weight len i) x (suc (length xs)) (omega arith))

-- The hash of a block is the two sums modulo `_M`, the second in the high half.
pub beta_hash-sums :
    (block : List ℕ)
    → length block < 2 ^ 32
    → beta_hash block ≡ record {
      beta = sum block % m_const + m_const * (weighted_sum block % m_const);
      beta1 = sum block % m_const;
      beta2 = weighted_sum block % m_const;
    }
unfolding beta_hash
beta_hash-sums block h =
    let e = beta_loop-sum (length block) 0 0 0 block in
    let e' = beta_loop-weighted_sum (length block) 0 0 0 block (omega arith) h in ground arith

sum-append : (xs ys : List ℕ) → sum (xs ++ ys) ≡ sum xs + sum ys
unfolding sum
sum-append [] ys = omega arith
sum-append (x ∷ xs) ys = omega (arith, sum-append xs ys)

weighted_sum-snoc :
    (xs : List ℕ) (y : ℕ) → weighted_sum (xs ++ y ∷ []) ≡ weighted_sum xs + sum xs + y
unfolding weighted_sum sum
weighted_sum-snoc [] y = omega arith
weighted_sum-snoc (x ∷ xs) y = omega (
  arith,
  weighted_sum-snoc xs y,
  length-append xs (y ∷ []),
  ap (λ t. suc t * x) (length-append xs (y ∷ [])),
)

-- Rolling a window of bytes gives the hash of the window that starts one byte further on.
pub roll-beta_hash :
    (pop push : ℕ) (xs : List ℕ)
    → pop < 256
    → push < 256
    → suc (length xs) < 2 ^ 32
    → roll (beta_hash (pop ∷ xs)) (suc (length xs)) pop push ≡ beta_hash (xs ++ push ∷ [])
unfolding roll sum weighted_sum
roll-beta_hash pop push xs hp hq h =
    rw (beta_hash-sums (pop ∷ xs) h, beta_hash-sums (xs ++ push ∷ []) shorter)
      (ground (
        arith,
        sum-append xs (push ∷ []),
        weighted_sum-snoc xs push,
        weight-product (u32 (suc (length xs))) pop (suc (length xs)) (omega arith),
      ))
  where
    shorter : length (xs ++ push ∷ []) < 2 ^ 32
    shorter = omega (arith, length-append xs (push ∷ []))
