-- ===== src/Wsync/Rolling.antt =====
-- The weak rolling hash: `βhash` of wsync/hashes.go, and its update by one byte in `ComputeDiff`
-- of wsync/algo.go. A uint32 is a number below 2 ^ 32, with every wrap written out.
pub mod Window
use wharf.Base.{ℕ, ◌+◌, ◌-◌, ◌*◌, ◌%◌, ◌^◌, List, [], ◌∷◌, length}

-- `_M`
abbrev pub m_const : ℕ
m_const = 2 ^ 16

abbrev pub u32 : ℕ → ℕ
u32 x = x % 2 ^ 32

abbrev pub sub_u32 : ℕ → ℕ → ℕ
sub_u32 a b = (a + 2 ^ 32 - b) % 2 ^ 32

pub record BetaHash : Type 0 where
  pub beta : ℕ
  pub beta1 : ℕ
  pub beta2 : ℕ

-- `uint32(len(block)-1) - uint32(i) + 1`, evaluated only inside the loop, where the block has a byte.
abbrev pub weight : ℕ → ℕ → ℕ
weight len i = u32 (sub_u32 (u32 (len - 1)) (u32 i) + 1)

-- The list is what `range block` has not reached.
pub beta_loop : ℕ → ℕ → ℕ → ℕ → List ℕ → ℕ × ℕ
beta_loop len i a b [] = (a, b)
beta_loop len i a b (val ∷ rest) =
    beta_loop len (i + 1) (u32 (a + val)) (u32 (b + u32 (weight len i * val))) rest

unfoldable pub beta_hash : List ℕ → BetaHash
unfolding beta_loop
beta_hash block =
    let (a, b) = beta_loop (length block) 0 0 0 block in
    record {
      beta = u32 (a % m_const + u32 (m_const * (b % m_const)));
      beta1 = a % m_const;
      beta2 = b % m_const;
    }

-- The window of `size` bytes loses `pop` in front and gains `push` at its end.
unfoldable pub roll : BetaHash → ℕ → ℕ → ℕ → BetaHash
roll h size pop push =
    let beta1 = u32 (sub_u32 h.beta1 pop + push) % m_const in
    let beta2 = u32 (sub_u32 h.beta2 (u32 (u32 size * pop)) + beta1) % m_const in
    record { beta = u32 (beta1 + u32 (m_const * beta2)); beta1 = beta1; beta2 = beta2 }
