-- ===== src/Pwr/Patcher/FullFile.antt =====
-- The operations that `isFullFileOp` (pwr/patcher/patcher_rsync.go) takes for a whole old file.
use wharf.Base.{
  ℕ, ◌*◌, ◌≤◌, Bool, true, false, ◌&&◌, some, List, [], ◌∷◌, append-nil, get_elem?, length, take,
  drop, take_all, ◌≡◌, refl, ap, ◌∙◌, arith, Bool-cases, Option-cases, inl, inr, ◌==◌, ==_eq,
}
use wharf.Wsync.Types.{op_block_range}
use wharf.Wsync.Emitter.Bytes.{ops_bytes}
use wharf.Pwr.BlockMath.{block_size, compute_num_blocks}
use wharf.Pwr.Patcher.{block_range, is_full_file_op}

both : (x y : Bool) → (x && y) ≡ true → (x ≡ true) × (y ≡ true)
both true true h = (refl, refl)
both true false h = absurd cc
both false y h = absurd cc

some_injective : (b : Bool) → some b ≡ some true → b ≡ true
some_injective b h = cc

covers : (n : ℕ) → n ≤ compute_num_blocks n * block_size
unfolding compute_num_blocks
covers n = omega arith

-- A range of all the blocks, from the first
range_bytes-all :
    (old : ℕ → List ℕ) (file block span : ℕ)
    → block ≡ 0
    → length (old file) ≤ span * block_size
    → ops_bytes old block_size (op_block_range file block span ∷ []) ≡ old file
unfolding ops_bytes
range_bytes-all old file block span e fits =
    append-nil (take (span * block_size) (drop (block * block_size) (old file)))
    ∙ ap (λ b. take (span * block_size) (drop (b * block_size) (old file))) e
    ∙ take_all (span * block_size) (old file) fits

module _ (old : ℕ → List ℕ) (target source : List ℕ)
    (sizes : (i n : ℕ) → get_elem? target i ≡ some n → length (old i) ≡ n) where
  -- An operation that passes for a full-file one is a range of blocks of an old file that is as
  -- large as the new one, and the bytes that it stands for are all of that file's: the
  -- transposition that takes its place gives the same file.
  pub is_full_file_op-ops_bytes :
      (i file block span : ℕ)
      → is_full_file_op target source i (block_range file block span) ≡ some true
      → (ops_bytes old block_size (op_block_range file block span ∷ []) ≡ old file)
        × (get_elem? source i ≡ some (length (old file)))
  unfolding is_full_file_op
  is_full_file_op-ops_bytes i file block span = elim (Bool-cases (block == 0)) [
    | inr e ↦ rw (is_full_file_op, e) (λ h. absurd cc)
    | inl e ↦ elim (Option-cases (get_elem? target file)) [
      | inl e' ↦ rw (is_full_file_op, e, e') (λ h. absurd cc)
      | inr (n, e') ↦ elim (Option-cases (get_elem? source i)) [
        | inl e'' ↦ rw (is_full_file_op, e, e', e'') (λ h. absurd cc)
        | inr (m, e'') ↦
            rw (is_full_file_op, e, e', e'')
              (λ h.
                let tests = both (n == m) (span == compute_num_blocks m) (some_injective _ h) in
                let long = sizes file n e' in
                let same = ==_eq n m tests.0 in
                let spans = ==_eq span (compute_num_blocks m) tests.1 in
                (
                  range_bytes-all old file block span (==_eq block 0 e)
                      (omega (arith, long, same, spans, covers m, ap (λ x. x * block_size) spans)),
                  ap some (omega (arith, long, same)),
                ))
      ]
    ]
  ]
