-- ===== src/Wsync/Diff/Reconstruct.antt =====
-- `ComputeDiff` (wsync/algo.go) against a library of genuine hashes.
use wharf.Base.{
  ℕ, zero, suc, ◌+◌, ◌-◌, ◌≤◌, ◌<◌, ◌≡◌, ◌≢◌, ◌⊎◌, refl, sym, ap, ◌∙◌, Bool, true, false, Option,
  none, some, List, [], ◌++◌, arith, length, drop, All, slice, slice-append-drop, length-slice,
  drop_all, append_assoc, append-nil, Bool-cases, Option-cases, inl, inr,
}
use mathlib.Core.Path.{subst}
use wharf.Wsync.Types.{op_block_range, op_data, BlockHash}
use wharf.Wsync.Library.{lookup, new_block_library}
use wharf.Wsync.Library.Lookup.{All-lookup}
use wharf.Wsync.Library.Find.{Found, find_unique_hash-Found}
use wharf.Wsync.Rolling.{BetaHash}
use wharf.Wsync.Emitter.{bind_ok}
use wharf.Wsync.Emitter.Bytes.{range_bytes, op_bytes, ops_bytes, output, send_waiting-bytes}
use wharf.Wsync.Diff.{
  Params, DiffState, start, emit, fill, window, sum_head, next_hash, find_block, flush, advance,
  examine, round, rounds, compute_diff,
}
use wharf.Wsync.Diff.Measure.{left, Filled, fill-Filled, flush-Filled}
use wharf.Wsync.Diff.Invariant.{Inv, out_bytes, emit-bytes, fill-Inv, flush-Inv}

-- A hash that was made from its block of the old files, with its true size, and whose strong hash
-- no other piece of the new content shares.
pub record IsGenuine (unique_hash : List ℕ → List ℕ) (block_size : ℕ) (old : ℕ → List ℕ)
    (src : List ℕ) (h : BlockHash) : Type 0 where
  pub full_size :
      h.short_size ≡ 0
      → (length (range_bytes old block_size h.file_index h.block_index 1) ≡ block_size)
        ⊎ (length (range_bytes old block_size h.file_index h.block_index 1) ≡ 0)
  pub true_size :
      h.short_size ≢ 0
      → length (range_bytes old block_size h.file_index h.block_index 1) ≡ h.short_size
  pub no_collision :
      (pre piece post : List ℕ)
      → src ≡ pre ++ (piece ++ post)
      → h.strong_hash ≡ unique_hash piece
      → piece ≡ range_bytes old block_size h.file_index h.block_index 1

module _ (p : Params) (old : ℕ → List ℕ) (src : List ℕ) (hashes : List BlockHash)
    (made : p.library ≡ new_block_library hashes)
    (genuine : All (IsGenuine p.unique_hash p.block_size old src) hashes) where
  open p use {block_size, unique_hash, accepts}

  abbrev IsGood : BlockHash → Type 0
  IsGood = IsGenuine unique_hash block_size old src

  abbrev FoundIn : DiffState → BlockHash → Type 0
  FoundIn s b = Found unique_hash IsGood (window p s) s.short_size b

  find_block-Found :
      (s : DiffState) (h : BetaHash) {b : BlockHash} → find_block p s h ≡ some b → FoundIn s b
  unfolding find_block
  find_block-Found s h {b} e = elim (Option-cases (lookup h.beta p.library)) [
    | inl gone ↦ absurd (ground arith)
    | inr (hh, e') ↦
        find_unique_hash-Found unique_hash IsGood hh
          (All-lookup IsGood h.beta hashes genuine (ap (lookup h.beta) (sym made) ∙ e'))
          (window p s) s.short_size p.preferred (ground arith)
  ]

  sum_head-cases :
      (s : DiffState)
      → (s.sum_tail ≤ length s.buffer)
      → (s.sum_tail ≤ sum_head p s)
        × (sum_head p s ≤ length s.buffer)
        × (sum_head p s ≤ s.sum_tail + block_size)
  sum_head-cases s h = ground arith

  window_whole :
      (s : DiffState)
      → Inv p old src s
      → s.data_tail ≡ s.sum_tail
      → out_bytes p old src s.out ++ (window p s ++ (drop (sum_head p s) s.buffer ++ s.source.rest))
        ≡ src
  window_whole s v e =
      ap (λ t. out_bytes p old src s.out ++ t)
        (sym (append_assoc (window p s) (drop (sum_head p s) s.buffer) s.source.rest)
          ∙ ap (λ t. t ++ s.source.rest)
              (slice-append-drop s.buffer s.sum_tail (sum_head p s)
                (sum_head-cases s v.sum_le_valid).0)
          ∙ ap (λ n. drop n s.buffer ++ s.source.rest) (sym e))
      ∙ v.whole

  window-eq-range :
      (s : DiffState) (b : BlockHash)
      → Inv p old src s
      → s.data_tail ≡ s.sum_tail
      → FoundIn s b
      → window p s ≡ range_bytes old block_size b.file_index b.block_index 1
  window-eq-range s b v e f =
      f.holds.no_collision (out_bytes p old src s.out) (window p s) _ (sym (window_whole s v e))
        f.strong

  length-window :
      (s : DiffState) → Inv p old src s → length (window p s) ≡ sum_head p s - s.sum_tail
  length-window s v = length-slice s.buffer s.sum_tail (sum_head p s) (ground arith)

  -- In the last round a found block reaches to the end of the buffer.
  last_block_reaches_end :
      (s t : DiffState) (b : BlockHash)
      → Inv p old src s
      → s.data_tail ≡ s.sum_tail
      → FoundIn s b
      → s.last_run ≡ true
      → Filled p t s
      → drop (sum_head p s) s.buffer ≡ []
  last_block_reaches_end s t b v e f l m = drop_all (sum_head p s) s.buffer (
      ground (
        arith,
        ap (λ x. length x) (window-eq-range s b v e f),
        length-window s v,
        f.holds.full_size,
        f.holds.true_size,
        m.short_lt l,
        m.short_tail l,
      ))

  -- What a round leaves: the invariant and fewer bytes, or all of the source in the output.
  record RoundPost (s t : DiffState) : Type 0 where
    goes_on : t.last_run ≡ false → Inv p old src t
    shrinks : t.last_run ≡ false → left t < left s
    ends : t.last_run ≡ true → out_bytes p old src t.out ≡ src

  found_whole :
      (s : DiffState) (b : BlockHash)
      → Inv p old src s
      → s.data_tail ≡ s.sum_tail
      → FoundIn s b
      → (out_bytes p old src s.out ++ range_bytes old block_size b.file_index b.block_index 1)
          ++ (drop (sum_head p s) s.buffer ++ s.source.rest)
        ≡ src
  found_whole s b v e f =
      append_assoc (out_bytes p old src s.out) _ _
      ∙ ap
          (λ t. out_bytes p old src s.out ++ (t ++ (drop (sum_head p s) s.buffer ++ s.source.rest)))
          (sym (window-eq-range s b v e f))
      ∙ window_whole s v e

  advance_found :
      (r s : DiffState) (b : BlockHash)
      → 0 < block_size
      → Inv p old src s
      → s.data_tail ≡ s.sum_tail
      → FoundIn s b
      → Filled p r s
      → (advance p (some b) s).0 ≡ none
      → RoundPost r (advance p (some b) s).1
  unfolding advance emit op_bytes
  advance_found r s b pos v e f m h = ground (
    arith,
    found_whole s b v e f,
    emit-bytes p old src (op_block_range b.file_index b.block_index 1) s,
    λ (l : s.last_run ≡ true). last_block_reaches_end s r b v e f l m,
    append-nil
        (out_bytes p old src s.out ++ range_bytes old block_size b.file_index b.block_index 1),
  )

  slice_to_end :
      (s : DiffState)
      → Inv p old src s
      → slice s.buffer s.data_tail (length s.buffer) ≡ drop s.data_tail s.buffer
  slice_to_end s v =
      sym (append-nil (slice s.buffer s.data_tail (length s.buffer)))
      ∙ ap (λ t. slice s.buffer s.data_tail (length s.buffer) ++ t)
          (sym (drop_all (length s.buffer) s.buffer (omega arith)))
      ∙ slice-append-drop s.buffer s.data_tail (length s.buffer) (omega arith)

  advance_fresh :
      (r s : DiffState)
      → 0 < block_size
      → Inv p old src s
      → Filled p r s
      → (advance p none s).0 ≡ none
      → RoundPost r (advance p none s).1
  unfolding advance emit op_bytes
  advance_fresh r s pos v m h = ground (
    arith,
    emit-bytes p old src (op_data (slice s.buffer s.data_tail (length s.buffer))) s,
    slice_to_end s v,
    append-nil (drop s.data_tail s.buffer),
  )

  flush_settles :
      (s : DiffState) (b : BlockHash)
      → Inv p old src s
      → (flush p (some b) s).0 ≡ none
      → (flush p (some b) s).1.data_tail ≡ (flush p (some b) s).1.sum_tail
  unfolding flush emit
  flush_settles s b v h = ground arith

  flush_frame :
      (s : DiffState) (found : Option BlockHash)
      → (window p (flush p found s).1 ≡ window p s)
        × ((flush p found s).1.short_size ≡ s.short_size)
  unfolding flush emit
  flush_frame s found = ground arith

  flush-FoundIn :
      (s : DiffState) (found : Option BlockHash) {b : BlockHash}
      → FoundIn s b
      → FoundIn (flush p found s).1 b
  flush-FoundIn s found f =
      let (w, n) = flush_frame s found in
      record {
        holds = f.holds;
        short = f.short ∙ sym n;
        strong = f.strong ∙ ap unique_hash (sym w);
        nonempty = omega (arith, f.nonempty, ap (λ x. length x) w);
      }

  advance_post :
      (r s : DiffState) (found : Option BlockHash)
      → 0 < block_size
      → Inv p old src s
      → ((b : BlockHash) → found ≡ some b → FoundIn s b × (s.data_tail ≡ s.sum_tail))
      → Filled p r s
      → (advance p found s).0 ≡ none
      → RoundPost r (advance p found s).1
  advance_post r s none pos v f m h = advance_fresh r s pos v m h
  advance_post r s (some b) pos v f m h = let (g, e) = f b refl in advance_found r s b pos v e g m h

  settled :
      (s : DiffState) (found : Option BlockHash)
      → Inv p old src s
      → ((b : BlockHash) → found ≡ some b → FoundIn s b)
      → (flush p found s).0 ≡ none
      → (b : BlockHash) → found ≡ some b
      → FoundIn (flush p found s).1 b
        × ((flush p found s).1.data_tail ≡ (flush p found s).1.sum_tail)
  settled s none v f h b e = absurd (cc)
  settled s (some c) v f h b e = (flush-FoundIn s (some c) (f b e), flush_settles s c v h)

  examine_post :
      (r s : DiffState)
      → 0 < block_size
      → Inv p old src s
      → Filled p r s
      → (examine p s).0 ≡ none
      → RoundPost r (examine p s).1
  unfolding examine
  examine_post r s pos v m h =
      let found = find_block p s (next_hash p s) in
      let s' : DiffState = record s { hash = next_hash p s; rolling = true } in
      let v' : Inv p old src s' = record {
        whole = v.whole;
        tail_le_head = v.tail_le_head;
        head_eq_sum = v.head_eq_sum;
        sum_le_valid = v.sum_le_valid;
      } in
      let m' : Filled p r s' = record {
        within = m.within;
        left_same = m.left_same;
        whole_block = m.whole_block;
        short_lt = m.short_lt;
        short_tail = m.short_tail;
        drained = m.drained;
      } in
      let f : ((b : BlockHash) → found ≡ some b → FoundIn s' b) = λ b e.
        let g : FoundIn s b = find_block-Found s (next_hash p s) e in
        record { holds = g.holds; short = g.short; strong = g.strong; nonempty = g.nonempty } in
      let (ok, next) = bind_ok (flush p found) (advance p found) s' h in
      subst (λ x. RoundPost r x.1) (sym next)
        (advance_post r (flush p found s').1 found pos (flush-Inv p old src found s' v' ok)
          (settled s' found v' f ok) (flush-Filled p r s' found m') (ap (λ x. x.0) (sym next) ∙ h))

  round_post :
      (s : DiffState)
      → 0 < block_size
      → Inv p old src s
      → s.last_run ≡ false
      → (round p s).0 ≡ none
      → RoundPost s (round p s).1
  unfolding round
  round_post s pos v l h =
      let (ok, next) = bind_ok (fill p) (examine p) s h in
      subst (λ x. RoundPost s x.1) (sym next)
        (examine_post s (fill p s).1 pos (fill-Inv p old src s v ok)
          (fill-Filled p s v.sum_le_valid l ok) (ap (λ x. x.0) (sym next) ∙ h))

  -- Between rounds: the invariant, or all of the source in the output after the last one.
  abbrev Between : DiffState → Type 0
  Between s =
      (s.last_run ≡ false → Inv p old src s) × (s.last_run ≡ true → out_bytes p old src s.out ≡ src)

  rounds_post :
      (fuel : ℕ) (s : DiffState)
      → 0 < block_size
      → Between s
      → (rounds p fuel s).0 ≡ none
      → out_bytes p old src (rounds p fuel s).1.out ≡ src
  unfolding rounds
  rounds_post zero s pos b h = absurd (cc)
  rounds_post (suc fuel) s pos b h = elim (Bool-cases s.last_run) [
    | inl l ↦ ground (arith, l, b.1 l)
    | inr l ↦ elim (Option-cases (round p s).0) [
      | inl ok ↦
          let q = round_post s pos (b.0 l) l ok in
          ground (arith, l, ok, rounds_post fuel (round p s).1 pos (q.goes_on, q.ends))
      | inr (e, bad) ↦ absurd (ground (arith, l, bad))
    ]
  ]

  start-Inv : (broken : Bool) → Inv p old src (start (record { rest = src; broken = broken }))
  unfolding output ops_bytes
  start-Inv broken = record {
    whole = refl;
    tail_le_head = omega arith;
    head_eq_sum = refl;
    sum_le_valid = omega arith;
  }

-- If `ComputeDiff` returns no error, and the reader did not fail, the operations that the writer
-- was given make up the source, in order and with nothing lost.
pub compute_diff-ops_bytes :
    (p : Params) (old : ℕ → List ℕ) (src : List ℕ) (hashes : List BlockHash)
    → p.library ≡ new_block_library hashes
    → All (IsGenuine p.unique_hash p.block_size old src) hashes
    → 0 < p.block_size
    → (rounds p (length src + 2) (start (record { rest = src; broken = false }))).0 ≡ none
    → (compute_diff p (record { rest = src; broken = false })).0 ≡ none
    → ops_bytes old p.block_size (compute_diff p (record { rest = src; broken = false })).1.sent
      ≡ src
unfolding compute_diff
compute_diff-ops_bytes p old src hashes made genuine pos ok h =
    send_waiting-bytes old p.block_size p.accepts _ _ h
    ∙ rounds_post p old src hashes made genuine (length src + 2) _ pos
        ((λ l. start-Inv p old src hashes made genuine false), λ l. absurd (cc)) ok
