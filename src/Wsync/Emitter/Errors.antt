-- ===== src/Wsync/Emitter/Errors.antt =====
-- Which errors an emitter returns (`enqueue` of wsync/algo.go).
use wharf.Base.{
  ℕ, ◌≡◌, ◌≢◌, refl, Bool, true, Option, none, some, List, arith, Option-cases, inl, inr, ◌⊎◌,
}
use wharf.Wsync.Types.{Operation, op_block_range, op_data}
use wharf.Wsync.Emitter.{
  DiffError, stuck, writer_failed, Emitter, send, enqueue, queue_range, queue_data, send_waiting,
}

abbrev pub OnlyWriter : Option DiffError → Type 0
OnlyWriter e = (e ≡ none) ⊎ (e ≡ some writer_failed)

module _ (accepts : List Operation → Operation → Bool) where
  send-OnlyWriter : (op : Operation) (o : Emitter) → OnlyWriter (send accepts op o).0
  unfolding send
  send-OnlyWriter op o = ground arith

  queue_range-OnlyWriter :
      (f i s : ℕ) (q : Option Operation) (o : Emitter)
      → OnlyWriter (queue_range accepts f i s q o).0
  unfolding queue_range
  queue_range-OnlyWriter f i s none o = inl refl
  queue_range-OnlyWriter f i s (some prev) o = ground (arith, send-OnlyWriter prev o)

  queue_data-OnlyWriter :
      (d : List ℕ) (q : Option Operation) (o : Emitter) → OnlyWriter (queue_data accepts d q o).0
  unfolding queue_data
  queue_data-OnlyWriter d none o = send-OnlyWriter (op_data d) o
  queue_data-OnlyWriter d (some prev) o = ground (
    arith,
    send-OnlyWriter prev o,
    send-OnlyWriter (op_data d) (record (send accepts prev o).1 { prev_op = none }),
  )

  pub enqueue-OnlyWriter : (op : Operation) (o : Emitter) → OnlyWriter (enqueue accepts op o).0
  unfolding enqueue
  enqueue-OnlyWriter (op_block_range f i s) o = queue_range-OnlyWriter f i s o.prev_op o
  enqueue-OnlyWriter (op_data d) o = queue_data-OnlyWriter d o.prev_op o

  pub send_waiting-ne-stuck :
      (e : Option DiffError) (o : Emitter)
      → e ≢ some stuck
      → (send_waiting accepts (e, o)).0 ≢ some stuck
  unfolding send_waiting
  send_waiting-ne-stuck e o h = elim (Option-cases o.prev_op) [
    | inl gone ↦ ground (arith, gone)
    | inr (prev, e') ↦ ground (arith, e', send-OnlyWriter prev o)
  ]

  module _ (all : (ops : List Operation) (op : Operation) → accepts ops op ≡ true) where
    send_total : (op : Operation) (o : Emitter) → (send accepts op o).0 ≡ none
    unfolding send
    send_total op o = ground (arith, all o.sent op)

    queue_range_total :
        (f i s : ℕ) (q : Option Operation) (o : Emitter) → (queue_range accepts f i s q o).0 ≡ none
    unfolding queue_range
    queue_range_total f i s none o = refl
    queue_range_total f i s (some prev) o = ground (arith, send_total prev o)

    queue_data_total :
        (d : List ℕ) (q : Option Operation) (o : Emitter) → (queue_data accepts d q o).0 ≡ none
    unfolding queue_data
    queue_data_total d none o = send_total (op_data d) o
    queue_data_total d (some prev) o = ground (
      arith,
      send_total prev o,
      send_total (op_data d) (record (send accepts prev o).1 { prev_op = none }),
    )

    -- A writer that takes everything makes every `enqueue` succeed.
    pub enqueue_total : (op : Operation) (o : Emitter) → (enqueue accepts op o).0 ≡ none
    unfolding enqueue
    enqueue_total (op_block_range f i s) o = queue_range_total f i s o.prev_op o
    enqueue_total (op_data d) o = queue_data_total d o.prev_op o

    pub send_waiting-waiting :
        (e : Option DiffError) (o : Emitter) {prev : Operation}
        → o.prev_op ≡ some prev
        → (send_waiting accepts (e, o)).0 ≡ none
    unfolding send_waiting
    send_waiting-waiting e o {prev} w = ground (arith, w, send_total prev o)

    pub send_waiting_total : (o : Emitter) → (send_waiting accepts (none, o)).0 ≡ none
    unfolding send_waiting
    send_waiting_total o = elim (Option-cases o.prev_op) [
      | inl gone ↦ ground (arith, gone)
      | inr (prev, e) ↦ ground (arith, e, send_total prev o)
    ]
