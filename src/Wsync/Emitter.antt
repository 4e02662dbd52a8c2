-- ===== src/Wsync/Emitter.antt =====
-- How `ComputeDiff` of wsync/algo.go hands operations on: `makeOperationCleaner`, which drops empty
-- data operations, and the closure `enqueue`, which joins neighbouring block ranges. An action
-- changes its state and returns the error, if any. The caller's OperationWriter is the parameter
-- `accepts`: whether it takes one more operation, given those that it took before.
pub mod Bytes
pub mod Errors
pub mod Keeps
use wharf.Base.{
  ℕ, ◌+◌, ◌≡◌, refl, Bool, true, false, ◌&&◌, Option, none, some, List, [], ◌∷◌, ◌++◌, ltb, ◌==◌,
  if◌then◌else◌,
}
use wharf.Wsync.Types.{Operation, op_block_range, op_data}

-- `stuck` is no Go value: a loop of the model ran out of fuel.
pub data DiffError : Type 0 where
  source_failed writer_failed stuck : DiffError

abbrev pub Action : Type 0 → Type 0
Action S = S → Option DiffError × S

abbrev pub done : {S : Type 0} → Action S
done s = (none, s)

abbrev pub after : {S : Type 0} → Option DiffError → Action S → Action S
after none k s = k s
after (some e) k s = (some e, s)

infixl 10 ◌>>◌
abbrev pub ◌>>◌ : {S : Type 0} → Action S → Action S → Action S
◌>>◌ m k s = let (e, s') = m s in after e k s'

after_ok :
    {S : Type 0} (e : Option DiffError) (k : Action S) (s : S)
    → (after e k s).0 ≡ none
    → (e ≡ none) × (after e k s ≡ k s)
after_ok none k s h = (refl, refl)
after_ok (some e) k s h = absurd (cc)

-- A sequence that ends with no error ran its first action with none.
pub bind_ok :
    {S : Type 0} (m k : Action S) (s : S)
    → ((m >> k) s).0 ≡ none
    → ((m s).0 ≡ none) × ((m >> k) s ≡ k (m s).1)
bind_ok m k s h = after_ok (m s).0 k (m s).1 h

abbrev pub modify : {S : Type 0} → (S → S) → Action S
modify f s = (none, f s)

-- `prevOp`, `sendCount`, and what the caller's writer has taken.
pub record Emitter : Type 0 where
  pub prev_op : Option Operation
  pub send_count : ℕ
  pub sent : List Operation

abbrev pub no_ops : Emitter
no_ops = record { prev_op = none; send_count = 0; sent = [] }

abbrev pub is_empty_data : Operation → Bool
is_empty_data (op_data []) = true
is_empty_data (op_data (b ∷ bs)) = false
is_empty_data (op_block_range f i s) = false

-- `prevOp.BlockSpan += op.BlockSpan`, where the two ranges are neighbours
unfoldable pub extend : Operation → ℕ → ℕ → ℕ → Option Operation
extend (op_block_range f i s) file block span =
    if f == file && i + s == block then some (op_block_range f i (s + span)) else none
extend (op_data d) file block span = none

module _ (accepts : List Operation → Operation → Bool) where
  unfoldable pub send : Operation → Action Emitter
  send op o =
      if ltb 0 o.send_count && is_empty_data op
      then (none, o)
      else if accepts o.sent op
      then (none, record o { send_count = o.send_count + 1; sent = o.sent ++ (op ∷ []) })
      else (some writer_failed, record o { send_count = o.send_count + 1 })

  abbrev set_prev : Option Operation → Action Emitter
  set_prev p = modify (λ (o : Emitter). record o { prev_op = p })

  -- A range that does not extend the previous operation sends that one off first.
  queue_range : ℕ → ℕ → ℕ → Option Operation → Action Emitter
  queue_range file block span none = set_prev (some (op_block_range file block span))
  queue_range file block span (some prev) = elim (extend prev file block span) [
    | some joined ↦ set_prev (some joined)
    | none ↦ do send prev; set_prev none; set_prev (some (op_block_range file block span))
  ]

  -- `prevOp = nil` comes before the test of the error here.
  queue_data : List ℕ → Option Operation → Action Emitter
  queue_data d none = send (op_data d)
  queue_data d (some prev) = λ (o : Emitter).
      let (e, o') = send prev o in after e (send (op_data d)) (record o' { prev_op = none })

  unfoldable pub enqueue : Operation → Action Emitter
  unfolding send extend queue_range queue_data
  enqueue (op_block_range file block span) o = queue_range file block span o.prev_op o
  enqueue (op_data d) o = queue_data d o.prev_op o

  -- The deferred function: an operation that waits is sent, and what that returns replaces the
  -- error that the body returned.
  unfoldable pub send_waiting : Option DiffError × Emitter → Option DiffError × Emitter
  unfolding send
  send_waiting (e, o) = elim o.prev_op [
    | none ↦ (e, o)
    | some prev ↦ let (e', o') = send prev o in (e', record o' { prev_op = none })
  ]
