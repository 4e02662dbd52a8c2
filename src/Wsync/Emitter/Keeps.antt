-- ===== src/Wsync/Emitter/Keeps.antt =====
-- Properties of operations that joining keeps (`enqueue` of wsync/algo.go).
use wharf.Base.{
  ℕ, ◌≡◌, Bool, Option, none, some, List, [], ◌∷◌, ◌++◌, arith, All, Option-cases, inl, inr,
}
use mathlib.Core.Path.{subst}
use wharf.Wsync.Types.{Operation, op_block_range, op_data}
use wharf.Wsync.Emitter.{
  DiffError, Emitter, extend, send, enqueue, queue_range, queue_data, send_waiting,
}

All-snoc {ℓ} :
    {A : Type 0} (P : A → Type ℓ) (xs : List A) (x : A) → All P xs → P x → All P (xs ++ (x ∷ []))
All-snoc P [] x h k = (k, tt)
All-snoc P (y ∷ ys) x h k = (h.0, All-snoc P ys x h.1 k)

abbrev pub Holds : (Operation → Type 0) → Option Operation → Type 0
Holds P none = Unit
Holds P (some op) = P op

module _ (P : Operation → Type 0)
    (joins : (prev : Operation) (f i s : ℕ) (j : Operation)
      → extend prev f i s ≡ some j
      → P prev
      → P (op_block_range f i s)
      → P j)
    (accepts : List Operation → Operation → Bool) where
  pub record Keeps (o : Emitter) : Type 0 where
    pub of_sent : All P o.sent
    pub of_prev : Holds P o.prev_op

  send-Keeps : (op : Operation) (o : Emitter) → P op → Keeps o → Keeps (send accepts op o).1
  unfolding send
  send-Keeps op o h k = ground (arith, All-snoc P o.sent op k.of_sent h)

  queue_range-Keeps :
      (f i s : ℕ) (q : Option Operation) (o : Emitter)
      → Holds P q
      → P (op_block_range f i s)
      → Keeps o
      → Keeps (queue_range accepts f i s q o).1
  unfolding queue_range
  queue_range-Keeps f i s none o hq h k = record { of_sent = k.of_sent; of_prev = h }
  queue_range-Keeps f i s (some prev) o hq h k = elim (Option-cases (extend prev f i s)) [
    | inl gone ↦ ground (arith, gone, send-Keeps prev o hq k)
    | inr (j, e) ↦ ground (arith, e, joins prev f i s j e hq h)
  ]

  queue_data-Keeps :
      (d : List ℕ) (q : Option Operation) (o : Emitter)
      → Holds P q
      → P (op_data d)
      → Keeps o
      → Keeps (queue_data accepts d q o).1
  unfolding queue_data
  queue_data-Keeps d none o hq h k = send-Keeps (op_data d) o h k
  queue_data-Keeps d (some prev) o hq h k =
      let o' : Emitter = record (send accepts prev o).1 { prev_op = none } in
      let k' : Keeps o' = record { of_sent = (send-Keeps prev o hq k).of_sent; of_prev = tt } in
      ground (arith, k', send-Keeps (op_data d) o' h k')

  pub enqueue-Keeps :
      (op : Operation) (o : Emitter) → P op → Keeps o → Keeps (enqueue accepts op o).1
  unfolding enqueue
  enqueue-Keeps (op_block_range f i s) o h k = queue_range-Keeps f i s o.prev_op o k.of_prev h k
  enqueue-Keeps (op_data d) o h k = queue_data-Keeps d o.prev_op o k.of_prev h k

  pub send_waiting-Keeps :
      (e : Option DiffError) (o : Emitter) → Keeps o → All P (send_waiting accepts (e, o)).1.sent
  unfolding send_waiting
  send_waiting-Keeps e o k = elim (Option-cases o.prev_op) [
    | inl gone ↦ ground (arith, gone, k.of_sent)
    | inr (prev, e') ↦
        ground (arith, e', (send-Keeps prev o (subst (Holds P) e' k.of_prev) k).of_sent)
  ]
