-- ===== src/Wsync/Apply/Healthy.antt =====
-- Applying operations over files that can be read.
use wharf.Base.{
  ℕ, ◌+◌, ◌-◌, ◌*◌, ◌/◌, ◌≤◌, ◌<◌, ◌≡◌, sym, ap, ◌∙◌, Bool, true, false, none, some, List, [], ◌∷◌,
  ◌++◌, append_assoc, append-nil, arith, length, length-drop, length-append, All, take, drop,
  take-min, inl, inr, ltb, Bool-cases, ltb→lt, min,
}
use native.Mathlib.Nat.{mul_comm, div-add-mod', mul-le-mul_right}
use wharf.Wsync.Types.{Operation, op_block_range, op_data}
use wharf.Wsync.Emitter.Bytes.{range_bytes, op_bytes, ops_bytes}
use wharf.Wsync.Apply.{Pool, Output, op_size, apply_single_full, apply_patch_full, apply_patch}

-- The pool's files are `old`: all open, can be sought, and are read without an error to their end.
pub record IsHealthy (pool : Pool) (old : ℕ → List ℕ) : Type 0 where
  pub size : (file : ℕ) → pool.get_size file ≡ length (old file)
  pub opens :
      (file : ℕ)
      → pool.get_read_seeker file
        ≡ some (record { content = old file; broken = false; can_seek = λ offset. true })

-- The quotient of a size below `m` blocks leaves room for one block more.
reach : (size b m : ℕ) → size < b * m → size / b * b + b ≤ m * b
reach size b m h = grind arith

op_size-min :
    (b size block span : ℕ)
    → 0 < b
    → 0 < span
    → min (op_size b size block span) (size - block * b) ≡ min (span * b) (size - block * b)
unfolding op_size
op_size-min b size block span pos h = elim (Bool-cases (ltb size (b * (block + span)))) [
  | inl e ↦ rw e (
      omega (
        arith,
        reach size b (block + span) (ltb→lt size (b * (block + span)) e),
        div-add-mod' size b,
        mul-le-mul_right b h,
      ))
  | inr e ↦ rw e (omega arith)
]

-- A range needs at least one block; `ComputeDiff` makes no other.
abbrev pub HasBlocks : Operation → Type 0
HasBlocks (op_block_range file block span) = 0 < span
HasBlocks (op_data bytes) = Unit

module _ (block_size : ℕ) (pool : Pool) (old : ℕ → List ℕ) (healthy : IsHealthy pool old) where
  take_same :
      (n m : ℕ) (xs : List ℕ) → min n (length xs) ≡ min m (length xs) → take n xs ≡ take m xs
  take_same n m xs e = sym (take-min n xs) ∙ ap (λ (k : ℕ). take k xs) e ∙ take-min m xs

  -- The size computed for a range reaches as far into the file as its blocks do.
  op_size-take :
      (file block span : ℕ)
      → 0 < block_size
      → 0 < span
      → take
          (op_size block_size (length (old file)) block span)
          (drop (block_size * block) (old file))
        ≡ range_bytes old block_size file block span
  unfolding range_bytes
  op_size-take file block span pos h =
      ap (λ n. take (op_size block_size (length (old file)) block span) (drop n (old file)))
        (mul_comm block_size block)
      ∙ take_same _ _ (drop (block * block_size) (old file)) (
          rw (length-drop (block * block_size) (old file))
            (op_size-min block_size (length (old file)) block span pos h))

  apply_single_full-op_bytes :
      (op : Operation) (out : Output) (fail_fast : Bool)
      → 0 < block_size
      → HasBlocks op
      → length (op_bytes old block_size op) ≤ out.room
      → apply_single_full block_size pool fail_fast op out ≡ (
        none,
        record {
          written = out.written ++ op_bytes old block_size op;
          room = out.room - length (op_bytes old block_size op);
        },
      )
  unfolding apply_single_full op_bytes
  apply_single_full-op_bytes (op_data bytes) out ff pos b fits = ground arith
  apply_single_full-op_bytes (op_block_range file block span) out ff pos b fits =
      rw (healthy.opens file, healthy.size file)
        (ground (arith, op_size-take file block span pos b))

  apply_patch_full-ops_bytes :
      (ops : List Operation) (out : Output) (fail_fast : Bool)
      → 0 < block_size
      → All HasBlocks ops
      → length (ops_bytes old block_size ops) ≤ out.room
      → apply_patch_full block_size pool fail_fast ops out ≡ (
        none,
        record {
          written = out.written ++ ops_bytes old block_size ops;
          room = out.room - length (ops_bytes old block_size ops);
        },
      )
  unfolding apply_patch_full ops_bytes
  apply_patch_full-ops_bytes [] out ff pos b fits = ground (arith, append-nil out.written)
  apply_patch_full-ops_bytes (op ∷ ops) out ff pos b fits =
      let x = op_bytes old block_size op in
      let l = length-append x (ops_bytes old block_size ops) in
      let out' : Output = record { written = out.written ++ x; room = out.room - length x } in
      ground (
        arith,
        l,
        apply_single_full-op_bytes op out ff pos b.0 (omega (arith, l)),
        apply_patch_full-ops_bytes ops out' ff pos b.1 (omega (arith, l)),
        append_assoc out.written x (ops_bytes old block_size ops),
      )

  -- Over files that can be read, and with room in the output, `ApplyPatch` returns no error and
  -- writes the bytes that the operations stand for.
  pub apply_patch-ops_bytes :
      (ops : List Operation) (out : Output)
      → 0 < block_size
      → All HasBlocks ops
      → length (ops_bytes old block_size ops) ≤ out.room
      → ((apply_patch block_size pool ops out).0 ≡ none)
        × ((apply_patch block_size pool ops out).1.written
            ≡ out.written ++ ops_bytes old block_size ops)
  unfolding apply_patch
  apply_patch-ops_bytes ops out pos b fits =
      ground (arith, apply_patch_full-ops_bytes ops out true pos b fits)
