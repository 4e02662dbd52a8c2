-- ===== src/Wsync/Diff/Sizes.antt =====
-- The sizes of the operations of `ComputeDiff`.
use wharf.Base.{
  ℕ, zero, suc, ◌+◌, ◌*◌, ◌<◌, ◌≡◌, true, false, Option, none, some, arith, length, slice,
  length-slice, All, Bool-cases, Option-cases, inl, inr,
}
use wharf.Wsync.Types.{Operation, op_block_range, op_data, BlockHash}
use wharf.Wsync.Emitter.{extend}
use wharf.Wsync.Emitter.Keeps.{Keeps, enqueue-Keeps, send_waiting-Keeps}
use wharf.Wsync.Diff.{
  Params, Source, DiffState, start, emit, fresh, max_data_op, wrap, read_block, fill, find_block,
  next_hash, flush, advance, examine, round, rounds, compute_diff,
}
use wharf.Wsync.Diff.Measure.{Filled, fill-Filled, flush-Filled}
use wharf.Wsync.Diff.Bounds.{InBounds, fill-InBounds, flush-InBounds, round_bounds, start-InBounds}

-- A range has a block, and a data operation is shorter than `MaxDataOp` and two blocks.
abbrev pub IsSized : ℕ → Operation → Type 0
IsSized block_size (op_block_range file block span) = 0 < span
IsSized block_size (op_data d) = length d < max_data_op + 2 * block_size

module _ (p : Params) (pos : 0 < p.block_size) where
  open p use {block_size, accepts}

  abbrev Sized : Operation → Type 0
  Sized = IsSized block_size

  joins :
      (prev : Operation) (f i s : ℕ) (j : Operation)
      → extend prev f i s ≡ some j
      → Sized prev
      → Sized (op_block_range f i s)
      → Sized j
  unfolding extend
  joins (op_block_range f' i' s') f i s (op_block_range f'' i'' s'') e h k = ground arith
  joins (op_block_range f' i' s') f i s (op_data d) e h k = absurd (ground arith)
  joins (op_data d) f i s j e h k = absurd (cc)

  abbrev AllSized : DiffState → Type 0
  AllSized s = Keeps Sized joins accepts s.out

  emit-AllSized :
      (op : Operation) (s : DiffState) → Sized op → AllSized s → AllSized (emit p op s).1
  unfolding emit
  emit-AllSized op s h k = enqueue-Keeps Sized joins accepts op s.out h k

  fresh-Sized : (s : DiffState) → InBounds p s → Sized (op_data (fresh p s))
  fresh-Sized s v = ground (arith, length-slice s.buffer s.data_tail s.data_head)

  fill-AllSized : (s : DiffState) → InBounds p s → AllSized s → AllSized (fill p s).1
  unfolding fill wrap read_block
  fill-AllSized s v k = ground (arith, emit-AllSized (op_data (fresh p s)) s (fresh-Sized s v) k)

  flush-AllSized :
      (found : Option BlockHash) (s : DiffState)
      → InBounds p s
      → AllSized s
      → AllSized (flush p found s).1
  unfolding flush
  flush-AllSized found s v k =
      ground (arith, emit-AllSized (op_data (fresh p s)) s (fresh-Sized s v) k)

  rest-Sized :
      (r s : DiffState)
      → InBounds p s
      → s.data_head < s.data_tail + max_data_op
      → Filled p r s
      → s.last_run ≡ true
      → Sized (op_data (slice s.buffer s.data_tail (length s.buffer)))
  rest-Sized r s v lt m l =
      ground
        (arith, length-slice s.buffer s.data_tail (length s.buffer), m.short_lt l, m.short_tail l)

  advance-AllSized :
      (r s : DiffState) (found : Option BlockHash)
      → InBounds p s
      → s.data_head < s.data_tail + max_data_op
      → Filled p r s
      → AllSized s
      → AllSized (advance p found s).1
  unfolding advance
  advance-AllSized r s none v lt m k = elim (Bool-cases s.last_run) [
    | inl l ↦ ground (
      arith,
      l,
      emit-AllSized (op_data (slice s.buffer s.data_tail (length s.buffer))) s
          (rest-Sized r s v lt m l) k,
    )
    | inr l ↦ ground (arith, l, k)
  ]
  advance-AllSized r s (some b) v lt m k =
      let op = op_block_range b.file_index b.block_index 1 in
      ground (arith, emit-AllSized op s (omega arith) k)

  examine-AllSized :
      (r s : DiffState) → InBounds p s → Filled p r s → AllSized s → AllSized (examine p s).1
  unfolding examine
  examine-AllSized r s v m k = elim (Option-cases (flush p found s').0) [
    | inl ok ↦
        let (b, lt) = flush-InBounds p found s' v' ok in
        ground (
          arith,
          ok,
          advance-AllSized r (flush p found s').1 found b lt (flush-Filled p r s' found m')
              (flush-AllSized found s' v' k),
        )
    | inr (e, bad) ↦ ground (arith, bad, flush-AllSized found s' v' k)
  ]
    where
      found : Option BlockHash
      found = find_block p s (next_hash p s)

      s' : DiffState
      s' = record s { hash = next_hash p s; rolling = true }

      v' : InBounds p s'
      v' = record {
        tail_le_head = v.tail_le_head;
        head_eq_sum = v.head_eq_sum;
        sum_le_valid = v.sum_le_valid;
        valid_le_len = v.valid_le_len;
        fresh_le_max = v.fresh_le_max;
      }

      m' : Filled p r s'
      m' = record {
        within = m.within;
        left_same = m.left_same;
        whole_block = m.whole_block;
        short_lt = m.short_lt;
        short_tail = m.short_tail;
        drained = m.drained;
      }

  round-AllSized :
      (s : DiffState) → InBounds p s → s.last_run ≡ false → AllSized s → AllSized (round p s).1
  unfolding round
  round-AllSized s v l k = elim (Option-cases (fill p s).0) [
    | inl ok ↦ ground (
      arith,
      ok,
      examine-AllSized s (fill p s).1 (fill-InBounds p s v ok) (fill-Filled p s v.sum_le_valid l ok)
          (fill-AllSized s v k),
    )
    | inr (e, bad) ↦ ground (arith, bad, fill-AllSized s v k)
  ]

  rounds-AllSized :
      (fuel : ℕ) (s : DiffState)
      → (s.last_run ≡ false → InBounds p s)
      → AllSized s
      → AllSized (rounds p fuel s).1
  unfolding rounds
  rounds-AllSized zero s v k = k
  rounds-AllSized (suc fuel) s v k = elim (Bool-cases s.last_run) [
    | inl l ↦ ground (arith, l, k)
    | inr l ↦ elim (Option-cases (round p s).0) [
      | inl ok ↦ ground (
        arith,
        l,
        ok,
        rounds-AllSized fuel (round p s).1 (λ m. (round_bounds p s pos (v l) l ok m).0)
            (round-AllSized s (v l) l k),
      )
      | inr (e, bad) ↦ ground (arith, l, bad, round-AllSized s (v l) l k)
    ]
  ]

  -- Whatever the source, the library and the writer, and whether there is an error or not: each
  -- operation that the writer takes is a range of at least one block, or data shorter than
  -- `MaxDataOp` and two blocks.
  pub compute_diff-IsSized :
      (source : Source) → All (IsSized block_size) (compute_diff p source).1.sent
  unfolding compute_diff
  compute_diff-IsSized source = send_waiting-Keeps Sized joins accepts _ _ (
      rounds-AllSized (length source.rest + 2) (start source) (λ l. start-InBounds p source)
        (record { of_sent = tt; of_prev = tt }))
