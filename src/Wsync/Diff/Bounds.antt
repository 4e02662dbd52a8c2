-- ===== src/Wsync/Diff/Bounds.antt =====
-- The indices of `ComputeDiff` (wsync/algo.go) over the rounds of its loop.
use wharf.Base.{
  ◌+◌, ◌*◌, ◌≤◌, ◌<◌, ◌≡◌, sym, ap, ◌∙◌, true, false, Option, none, some, arith, length, take,
  length-drop, length-append, length-take,
}
use mathlib.Core.Path.{subst}
use wharf.Wsync.Types.{BlockHash}
use wharf.Wsync.Emitter.{bind_ok}
use wharf.Wsync.Diff.{
  Params, Source, DiffState, start, max_data_op, buffer_len, emit, wrap, read_block, fill,
  find_block, next_hash, flush, advance, examine, round,
}
use wharf.Wsync.Diff.Measure.{left, Filled, fill-Filled, flush-Filled}

module _ (p : Params) where
  open p use {block_size, accepts}

  -- The indexes are in order and inside the buffer.
  pub record InBounds (s : DiffState) : Type 0 where
    pub tail_le_head : s.data_tail ≤ s.data_head
    pub head_eq_sum : s.data_head ≡ s.sum_tail
    pub sum_le_valid : s.sum_tail ≤ length s.buffer
    pub valid_le_len : length s.buffer ≤ buffer_len p
    pub fresh_le_max : s.data_head ≤ s.data_tail + max_data_op

  buffer_len-le : block_size * 2 + max_data_op ≤ buffer_len p
  unfolding buffer_len
  buffer_len-le = ground arith

  wrap_bounds :
      (s : DiffState)
      → InBounds s
      → length s.buffer < s.sum_tail + block_size
      → (wrap p s).0 ≡ none
      → InBounds (wrap p s).1 × (length (wrap p s).1.buffer < block_size)
  unfolding wrap emit
  wrap_bounds s v lt h = ground (arith, buffer_len-le, length-drop s.sum_tail s.buffer)

  -- A block that is read goes between the bytes that are there and the end of the Go buffer.
  read_block-InBounds :
      (s : DiffState)
      → InBounds s
      → length s.buffer + block_size ≤ buffer_len p
      → InBounds (read_block p s).1
  unfolding read_block
  read_block-InBounds s v fits = ground (
    arith,
    length-append s.buffer (take block_size s.source.rest),
    length-take block_size s.source.rest,
  )

  pub fill-InBounds : (s : DiffState) → InBounds s → (fill p s).0 ≡ none → InBounds (fill p s).1
  unfolding fill
  fill-InBounds s v h = ground (
    arith,
    buffer_len-le,
    wrap_bounds s v,
    read_block-InBounds s v,
    read_block-InBounds (wrap p s).1,
  )

  pub flush-InBounds :
      (found : Option BlockHash) (s : DiffState)
      → InBounds s
      → (flush p found s).0 ≡ none
      → InBounds (flush p found s).1
        × ((flush p found s).1.data_head < (flush p found s).1.data_tail + max_data_op)
  unfolding flush emit
  flush-InBounds found s v h = ground arith

  -- What a round that is not the last leaves.
  record Round (s t : DiffState) : Type 0 where
    bounds : t.last_run ≡ false → InBounds t
    shrinks : t.last_run ≡ false → left t < left s

  advance-Round :
      (r s : DiffState) (found : Option BlockHash)
      → 0 < block_size
      → InBounds s
      → s.data_head < s.data_tail + max_data_op
      → Filled p r s
      → (advance p found s).0 ≡ none
      → Round r (advance p found s).1
  unfolding advance emit
  advance-Round r s none pos v lt m h = ground arith
  advance-Round r s (some b) pos v lt m h = ground arith

  examine-Round :
      (r s : DiffState)
      → 0 < block_size
      → InBounds s
      → Filled p r s
      → (examine p s).0 ≡ none
      → Round r (examine p s).1
  unfolding examine
  examine-Round r s pos v m h =
      let found = find_block p s (next_hash p s) in
      let s' : DiffState = record s { hash = next_hash p s; rolling = true } in
      let v' : InBounds s' = record {
        tail_le_head = v.tail_le_head;
        head_eq_sum = v.head_eq_sum;
        sum_le_valid = v.sum_le_valid;
        valid_le_len = v.valid_le_len;
        fresh_le_max = v.fresh_le_max;
      } in
      let m' : Filled p r s' = record {
        within = m.within;
        left_same = m.left_same;
        whole_block = m.whole_block;
        short_lt = m.short_lt;
        short_tail = m.short_tail;
        drained = m.drained;
      } in
      let (ok, next) = bind_ok (flush p found) (advance p found) s' h in
      let (b, lt) = flush-InBounds found s' v' ok in
      subst (λ x. Round r x.1) (sym next)
        (advance-Round r (flush p found s').1 found pos b lt (flush-Filled p r s' found m')
          (ap (λ x. x.0) (sym next) ∙ h))

  round-Round :
      (s : DiffState)
      → 0 < block_size
      → InBounds s
      → s.last_run ≡ false
      → (round p s).0 ≡ none
      → Round s (round p s).1
  unfolding round
  round-Round s pos v l h =
      let (ok, next) = bind_ok (fill p) (examine p) s h in
      subst (λ x. Round s x.1) (sym next)
        (examine-Round s (fill p s).1 pos (fill-InBounds s v ok)
          (fill-Filled p s v.sum_le_valid l ok) (ap (λ x. x.0) (sym next) ∙ h))

  -- A round without an error, with blocks that are not empty and from indices in order within the
  -- buffer, that is not the last: behind it the indices are in order within the buffer again, and
  -- it has taken a byte at least. (Behind the last round `sum.tail` may be past `validTo`.)
  pub round_bounds :
      (s : DiffState)
      → 0 < block_size
      → InBounds s
      → s.last_run ≡ false
      → (round p s).0 ≡ none
      → (round p s).1.last_run ≡ false
      → InBounds (round p s).1 × (left (round p s).1 < left s)
  round_bounds s pos v l h l' = let r = round-Round s pos v l h in (r.bounds l', r.shrinks l')

  -- The reader writes inside the Go buffer: after the wrap a whole block fits behind `validTo`.
  pub read_fits :
      (s : DiffState)
      → InBounds s
      → length s.buffer < s.sum_tail + block_size
      → (buffer_len p < length s.buffer + block_size
          → (wrap p s).0 ≡ none
          → length (wrap p s).1.buffer + block_size ≤ buffer_len p)
  read_fits s v lt big ok = omega (arith, buffer_len-le, wrap_bounds s v lt ok)

  pub start-InBounds : (source : Source) → InBounds (start source)
  start-InBounds source = omega arith
