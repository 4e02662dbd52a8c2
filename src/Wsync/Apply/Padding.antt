-- ===== src/Wsync/Apply/Padding.antt =====
-- What `ApplySingleFull` does over files that cannot be read, when it does not fail fast.
use wharf.Base.{
  ℕ, ◌+◌, ◌-◌, ◌*◌, ◌≤◌, ◌≡◌, refl, ◌++◌, true, false, Option, none, some, arith, length,
  length-append, length-replicate, length-take, take, drop, replicate, ◌⊎◌,
}
use wharf.Wsync.Types.{op_block_range}
use wharf.Wsync.Apply.{
  Pool, Target, Output, op_size, copy, copy_zeros, copy_target, copied_or_zeros, read_range,
  apply_single_full,
}

-- A file that fails before `n` bytes from `offset` on are read, or that has them.
abbrev pub FailsOrHas : Target → ℕ → ℕ → Type 0
FailsOrHas t offset n = (t.broken ≡ true) ⊎ (n ≤ length (drop offset t.content))

module _ (block_size : ℕ) (pool : Pool) where
  read_range-length :
      (size offset : ℕ) (found : Option Target) (out : Output)
      → size ≤ out.room
      → ((t : Target) → found ≡ some t → FailsOrHas t offset size)
      → let (e, out') = read_range block_size pool false size offset found out in
        (e ≡ none) × (length out'.written ≡ length out.written + size)
  unfolding read_range copied_or_zeros copy_target copy_zeros copy
  read_range-length size offset none out fits ok =
      ground (arith, length-replicate {A = ℕ} size 0, length-append out.written (replicate size 0))
  read_range-length size offset (some t) out fits ok =
      let bytes = take size (drop offset t.content) in
      ground (
        arith,
        ok t refl,
        length-take size (drop offset t.content),
        length-append out.written bytes,
        length-replicate {A = ℕ} size 0,
        length-append out.written (replicate size 0),
        length-replicate {A = ℕ} (size - length bytes) 0,
        length-append (out.written ++ bytes) (replicate (size - length bytes) 0),
      )

  -- With room in the output, a block range that cannot be read, whole or in part, is no error when
  -- failing fast is off: the output still grows by the size of the range, so that what follows
  -- stands at its place. (A file that ends early with no error is left out. Without the room, the
  -- output's own error is passed over, and less is written.)
  pub padding_keeps_length :
      (file block span : ℕ) (out : Output)
      → op_size block_size (pool.get_size file) block span ≤ out.room
      → ((t : Target)
          → pool.get_read_seeker file ≡ some t
          → FailsOrHas t (block_size * block) (op_size block_size (pool.get_size file) block span))
      → let (e, out') =
          apply_single_full block_size pool false (op_block_range file block span) out in
        (e ≡ none)
        × (length out'.written
            ≡ length out.written + op_size block_size (pool.get_size file) block span)
  unfolding apply_single_full
  padding_keeps_length file block span out fits ok =
      read_range-length (op_size block_size (pool.get_size file) block span) (block_size * block)
        (pool.get_read_seeker file) out fits ok
