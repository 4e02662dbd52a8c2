-- ===== src/Wsync/Diff/Invariant.antt =====
-- The loop invariant of `ComputeDiff`: the operations so far, the bytes that are still in the
-- buffer and what the source has not yielded make up the source.
use wharf.Base.{
  ℕ, ◌≤◌, ◌≡◌, sym, ap, ◌∙◌, Option, none, List, ◌++◌, append_assoc, arith, length, take, drop,
  slice-append-drop, length-append, drop-append, take-append-drop,
}
use wharf.Wsync.Types.{Operation, op_data, BlockHash}
use wharf.Wsync.Emitter.{Emitter}
use wharf.Wsync.Emitter.Bytes.{op_bytes, output, enqueue-bytes}
use wharf.Wsync.Diff.{Params, DiffState, emit, fresh, wrap, read_block, fill, flush}

module _ (p : Params) (old : ℕ → List ℕ) (src : List ℕ) where
  open p use {block_size, accepts}

  abbrev pub out_bytes : Emitter → List ℕ
  out_bytes = output old block_size

  pub record Inv (s : DiffState) : Type 0 where
    pub whole : out_bytes s.out ++ (drop s.data_tail s.buffer ++ s.source.rest) ≡ src
    pub tail_le_head : s.data_tail ≤ s.data_head
    pub head_eq_sum : s.data_head ≡ s.sum_tail
    pub sum_le_valid : s.sum_tail ≤ length s.buffer

  pub emit-bytes :
      (op : Operation) (s : DiffState)
      → (emit p op s).0 ≡ none
      → out_bytes (emit p op s).1.out ≡ out_bytes s.out ++ op_bytes old block_size op
  unfolding emit
  emit-bytes op s h = enqueue-bytes old block_size accepts op s.out h

  -- Sending the fresh bytes moves them from the buffer to the output.
  pub emit-fresh :
      (s : DiffState)
      → Inv s
      → (emit p (op_data (fresh p s)) s).0 ≡ none
      → out_bytes (emit p (op_data (fresh p s)) s).1.out
          ++ (drop s.data_head s.buffer ++ s.source.rest)
        ≡ src
  unfolding op_bytes
  emit-fresh s v h =
      ap (λ t. t ++ (drop s.data_head s.buffer ++ s.source.rest))
        (emit-bytes (op_data (fresh p s)) s h)
      ∙ append_assoc (out_bytes s.out) (fresh p s) _
      ∙ ap (λ t. out_bytes s.out ++ t)
          (sym (append_assoc (fresh p s) (drop s.data_head s.buffer) s.source.rest)
            ∙ ap (λ t. t ++ s.source.rest)
                (slice-append-drop s.buffer s.data_tail s.data_head v.tail_le_head))
      ∙ v.whole

  wrap-Inv : (s : DiffState) → Inv s → (wrap p s).0 ≡ none → Inv (wrap p s).1
  unfolding wrap emit
  wrap-Inv s v h = ground (arith, emit-fresh s v)

  read_block_whole :
      (s : DiffState)
      → Inv s
      → out_bytes s.out
          ++ (drop s.data_tail (s.buffer ++ take block_size s.source.rest)
              ++ drop block_size s.source.rest)
        ≡ src
  read_block_whole s v =
      ap (λ t. out_bytes s.out ++ t)
        (ap (λ t. t ++ drop block_size s.source.rest)
            (drop-append s.data_tail s.buffer _ (omega arith))
          ∙ append_assoc (drop s.data_tail s.buffer) (take block_size s.source.rest) _
          ∙ ap (λ t. drop s.data_tail s.buffer ++ t) (take-append-drop block_size s.source.rest))
      ∙ v.whole

  read_block-Inv : (s : DiffState) → Inv s → (read_block p s).0 ≡ none → Inv (read_block p s).1
  unfolding read_block
  read_block-Inv s v h =
      ground (arith, read_block_whole s v, length-append s.buffer (take block_size s.source.rest))

  pub fill-Inv : (s : DiffState) → Inv s → (fill p s).0 ≡ none → Inv (fill p s).1
  unfolding fill
  fill-Inv s v h = ground (arith, wrap-Inv s, read_block-Inv s v, read_block-Inv (wrap p s).1)

  -- After `flush` nothing fresh waits in front of a block that was found.
  pub flush-Inv :
      (found : Option BlockHash) (s : DiffState)
      → Inv s
      → (flush p found s).0 ≡ none
      → Inv (flush p found s).1
  unfolding flush emit
  flush-Inv found s v h = ground (arith, emit-fresh s v)
