-- ===== src/Wsync/Emitter/Bytes.antt =====
-- The bytes that operations stand for, and those of an emitter (`enqueue` of wsync/algo.go).
use wharf.Base.{
  ℕ, ◌+◌, ◌*◌, ◌≡◌, refl, sym, ap, ◌∙◌, Bool, true, Option, none, some, List, [], ◌∷◌, ◌++◌,
  append-nil, append_assoc, arith, take, drop, take-append-take-drop, drop-drop, inl, inr,
  Option-cases,
}
use wharf.Wsync.Types.{Operation, op_block_range, op_data}
use wharf.Wsync.Emitter.{
  Emitter, DiffError, is_empty_data, extend, send, enqueue, queue_range, queue_data, send_waiting,
}

-- The old files, and the block size.
module _ (old : ℕ → List ℕ) (block_size : ℕ) where
  -- The bytes of a range of blocks; the last block of a file may be short.
  unfoldable pub range_bytes : ℕ → ℕ → ℕ → List ℕ
  range_bytes file block span = take (span * block_size) (drop (block * block_size) (old file))

  unfoldable pub op_bytes : Operation → List ℕ
  unfolding range_bytes
  op_bytes (op_block_range file block span) = range_bytes file block span
  op_bytes (op_data d) = d

  unfoldable pub ops_bytes : List Operation → List ℕ
  unfolding op_bytes
  ops_bytes [] = []
  ops_bytes (op ∷ ops) = op_bytes op ++ ops_bytes ops

  ops_bytes-snoc :
      (ops : List Operation) (op : Operation)
      → ops_bytes (ops ++ (op ∷ [])) ≡ ops_bytes ops ++ op_bytes op
  unfolding ops_bytes
  ops_bytes-snoc [] op = append-nil (op_bytes op)
  ops_bytes-snoc (p ∷ ops) op =
      ap (λ t. op_bytes p ++ t) (ops_bytes-snoc ops op)
      ∙ sym (append_assoc (op_bytes p) (ops_bytes ops) (op_bytes op))

  waiting_bytes : Option Operation → List ℕ
  waiting_bytes none = []
  waiting_bytes (some op) = op_bytes op

  -- All bytes so far: sent, or waiting to be sent.
  unfoldable pub output : Emitter → List ℕ
  unfolding ops_bytes waiting_bytes
  output o = ops_bytes o.sent ++ waiting_bytes o.prev_op

  range_bytes-join :
      (f i s t : ℕ) → range_bytes f i s ++ range_bytes f (i + s) t ≡ range_bytes f i (s + t)
  unfolding range_bytes
  range_bytes-join f i s t =
      ap (λ y. take (s * block_size) x ++ take (t * block_size) y)
        (ap (λ n. drop n (old f)) e ∙ sym (drop-drop (i * block_size) (s * block_size) (old f)))
      ∙ take-append-take-drop (s * block_size) (t * block_size) x
      ∙ ap (λ n. take n x) e'
    where
      x : List ℕ
      x = drop (i * block_size) (old f)

      e : (i + s) * block_size ≡ i * block_size + s * block_size
      e = omega arith

      e' : s * block_size + t * block_size ≡ (s + t) * block_size
      e' = omega arith

  op_bytes-extend :
      (prev : Operation) (f i s : ℕ) {joined : Operation}
      → extend prev f i s ≡ some joined
      → op_bytes joined ≡ op_bytes prev ++ range_bytes f i s
  unfolding extend op_bytes
  op_bytes-extend (op_block_range f' i' s') f i s e = ground (arith, range_bytes-join f' i' s' s)
  op_bytes-extend (op_data d) f i s e = absurd (cc)

  is_empty_data-bytes : (op : Operation) → is_empty_data op ≡ true → op_bytes op ≡ []
  unfolding op_bytes
  is_empty_data-bytes (op_data []) e = refl
  is_empty_data-bytes (op_data (b ∷ bs)) e = absurd (cc)
  is_empty_data-bytes (op_block_range f i s) e = absurd (cc)

  module _ (accepts : List Operation → Operation → Bool) where
    -- What the writer takes is the bytes of the operation, and nothing waits that did not.
    send-bytes :
        (op : Operation) (o : Emitter)
        → (send accepts op o).0 ≡ none
        → (ops_bytes (send accepts op o).1.sent ≡ ops_bytes o.sent ++ op_bytes op)
          × ((send accepts op o).1.prev_op ≡ o.prev_op)
    unfolding send
    send-bytes op o e =
        ground
          (arith, is_empty_data-bytes op, append-nil (ops_bytes o.sent), ops_bytes-snoc o.sent op)

    queue_range-bytes :
        (f i s : ℕ) (p : Option Operation) (o : Emitter)
        → p ≡ o.prev_op
        → (queue_range accepts f i s p o).0 ≡ none
        → output (queue_range accepts f i s p o).1 ≡ output o ++ range_bytes f i s
    unfolding queue_range output op_bytes
    queue_range-bytes f i s none o e h = ground (arith, append-nil (ops_bytes o.sent))
    queue_range-bytes f i s (some prev) o e h = elim (Option-cases (extend prev f i s)) [
      | inl gone ↦ ground (
        arith,
        gone,
        send-bytes prev o,
        append_assoc (ops_bytes o.sent) (op_bytes prev) (range_bytes f i s),
      )
      | inr (joined, e') ↦ ground (
        arith,
        e',
        op_bytes-extend prev f i s e',
        append_assoc (ops_bytes o.sent) (op_bytes prev) (range_bytes f i s),
      )
    ]

    queue_data-bytes :
        (d : List ℕ) (p : Option Operation) (o : Emitter)
        → p ≡ o.prev_op
        → (queue_data accepts d p o).0 ≡ none
        → output (queue_data accepts d p o).1 ≡ output o ++ d
    unfolding queue_data output op_bytes
    queue_data-bytes d none o e h = ground (
      arith,
      send-bytes (op_data d) o,
      append-nil (ops_bytes o.sent),
      append-nil (ops_bytes (send accepts (op_data d) o).1.sent),
    )
    queue_data-bytes d (some prev) o e h =
        let o' : Emitter = record (send accepts prev o).1 { prev_op = none } in
        ground (
          arith,
          send-bytes prev o,
          send-bytes (op_data d) o',
          append-nil (ops_bytes (send accepts (op_data d) o').1.sent),
        )

    -- An operation that is taken in with no error adds its bytes to the output.
    pub enqueue-bytes :
        (op : Operation) (o : Emitter)
        → (enqueue accepts op o).0 ≡ none
        → output (enqueue accepts op o).1 ≡ output o ++ op_bytes op
    unfolding enqueue op_bytes
    enqueue-bytes (op_block_range f i s) o h = queue_range-bytes f i s o.prev_op o refl h
    enqueue-bytes (op_data d) o h = queue_data-bytes d o.prev_op o refl h

    -- When the deferred send succeeds, nothing waits any more and no byte is lost.
    pub send_waiting-bytes :
        (e : Option DiffError) (o : Emitter)
        → (send_waiting accepts (e, o)).0 ≡ none
        → ops_bytes (send_waiting accepts (e, o)).1.sent ≡ output o
    unfolding send_waiting output
    send_waiting-bytes e o h = elim (Option-cases o.prev_op) [
      | inl gone ↦ ground (arith, gone, append-nil (ops_bytes o.sent))
      | inr (prev, e') ↦ ground (arith, e', send-bytes prev o)
    ]
