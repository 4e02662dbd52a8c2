-- ===== src/Pwr/BlockMath.antt =====
-- Block arithmetic of pwr/diff.go and pwr/constants.go. Sizes are int64 and not negative.
use wharf.Base.{ℕ, zero, suc, ◌+◌, ◌-◌, ◌*◌, ◌/◌, ◌%◌, ◌≤◌, ◌<◌, ◌≡◌, arith, ltb, if◌then◌else◌}

-- `BlockSize`
abbrev pub block_size : ℕ
block_size = 64 * 1024

-- Sizes that are within a block of 2^63, where the code's int64 wraps around, are left out.
unfoldable pub compute_num_blocks : ℕ → ℕ
compute_num_blocks file_size = (file_size + block_size - 1) / block_size

unfoldable pub compute_block_size : ℕ → ℕ → ℕ
compute_block_size file_size block_index =
    if ltb file_size (block_size * (block_index + 1)) then file_size % block_size else block_size

-- All blocks before `n`, by size.
unfoldable pub sum_block_sizes : ℕ → ℕ → ℕ
sum_block_sizes file_size zero = 0
sum_block_sizes file_size (suc n) = sum_block_sizes file_size n + compute_block_size file_size n

compute_block_size_bounds :
    (file_size i : ℕ)
    → i < compute_num_blocks file_size
    → (0 < compute_block_size file_size i) × (compute_block_size file_size i ≤ block_size)
unfolding compute_num_blocks compute_block_size
compute_block_size_bounds file_size i h = ground arith

sum_block_sizes-full :
    (file_size n : ℕ) → n * block_size ≤ file_size → sum_block_sizes file_size n ≡ n * block_size
unfolding sum_block_sizes compute_block_size
sum_block_sizes-full file_size zero h = omega arith
sum_block_sizes-full file_size (suc n) h = ground (arith, sum_block_sizes-full file_size n)

sum_block_sizes-covering :
    (file_size n : ℕ)
    → file_size ≤ n * block_size
    → n * block_size < file_size + block_size
    → sum_block_sizes file_size n ≡ file_size
unfolding sum_block_sizes compute_block_size
sum_block_sizes-covering file_size zero h k = omega arith
sum_block_sizes-covering file_size (suc n) h k = ground (arith, sum_block_sizes-full file_size n)

-- The blocks that `ComputeNumBlocks` counts make up the file, each with a byte at least and
-- `BlockSize` bytes at most.
pub sum_block_sizes-num_blocks :
    (file_size : ℕ)
    → (sum_block_sizes file_size (compute_num_blocks file_size) ≡ file_size)
      × ((i : ℕ)
          → i < compute_num_blocks file_size
          → (0 < compute_block_size file_size i) × (compute_block_size file_size i ≤ block_size))
unfolding compute_num_blocks
sum_block_sizes-num_blocks file_size = (
  sum_block_sizes-covering file_size ((file_size + block_size - 1) / block_size) (omega arith)
      (omega arith),
  compute_block_size_bounds file_size,
)
