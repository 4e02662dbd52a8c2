-- ===== src/Wsync/Diff/Total.antt =====
-- How `ComputeDiff` (wsync/algo.go) ends, and with which errors.
use wharf.Base.{
  ℕ, zero, suc, ◌+◌, ◌≤◌, ◌<◌, ◌≡◌, ◌≢◌, refl, true, false, Option, none, some, List, arith, length,
  slice, All, Bool-cases, Option-cases, inl, inr,
}
use wharf.Wsync.Types.{Operation, op_data, op_block_range, BlockHash}
use wharf.Wsync.Library.{new_block_library}
use wharf.Wsync.Emitter.{DiffError, stuck}
use wharf.Wsync.Emitter.Errors.{
  enqueue-OnlyWriter, enqueue_total, send_waiting_total, send_waiting-ne-stuck,
}
use wharf.Wsync.Emitter.Bytes.{ops_bytes}
use wharf.Wsync.Diff.{
  Params, Source, DiffState, start, emit, fresh, wrap, fill, find_block, next_hash, flush, advance,
  examine, round, rounds, compute_diff,
}
use wharf.Wsync.Diff.Measure.{left}
use wharf.Wsync.Diff.Bounds.{InBounds, round_bounds, start-InBounds}
use wharf.Wsync.Diff.Reconstruct.{IsGenuine, compute_diff-ops_bytes}

module _ (p : Params) where
  open p use {block_size, accepts}

  wrap-ne-stuck : (s : DiffState) → (wrap p s).0 ≢ some stuck
  unfolding wrap emit
  wrap-ne-stuck s = ground (arith, enqueue-OnlyWriter accepts (op_data (fresh p s)) s.out)

  fill-ne-stuck : (s : DiffState) → (fill p s).0 ≢ some stuck
  unfolding fill
  fill-ne-stuck s = ground (arith, wrap-ne-stuck s)

  flush-ne-stuck : (found : Option BlockHash) (s : DiffState) → (flush p found s).0 ≢ some stuck
  unfolding flush emit
  flush-ne-stuck found s = ground (arith, enqueue-OnlyWriter accepts (op_data (fresh p s)) s.out)

  advance-ne-stuck : (found : Option BlockHash) (s : DiffState) → (advance p found s).0 ≢ some stuck
  unfolding advance emit
  advance-ne-stuck none s = ground (
    arith,
    enqueue-OnlyWriter accepts (op_data (slice s.buffer s.data_tail (length s.buffer))) s.out,
  )
  advance-ne-stuck (some b) s =
      ground (arith, enqueue-OnlyWriter accepts (op_block_range b.file_index b.block_index 1) s.out)

  round-ne-stuck : (s : DiffState) → (round p s).0 ≢ some stuck
  unfolding round examine
  round-ne-stuck s =
      let t = (fill p s).1 in
      let found = find_block p t (next_hash p t) in
      let t' : DiffState = record t { hash = next_hash p t; rolling = true } in
      ground (
        arith,
        fill-ne-stuck s,
        flush-ne-stuck found t',
        advance-ne-stuck found (flush p found t').1,
      )

  rounds_step :
      (fuel : ℕ) (s : DiffState)
      → s.last_run ≡ false
      → (round p s).0 ≡ none
      → rounds p (suc fuel) s ≡ rounds p fuel (round p s).1
  unfolding rounds
  rounds_step fuel s l ok = ground (arith, l, ok)

  -- Fuel for the rounds that are left, and for the test that ends the loop.
  abbrev Enough : ℕ → DiffState → Type 0
  Enough fuel s = (1 ≤ fuel) × (s.last_run ≡ false → left s + 2 ≤ fuel)

  rounds-ne-stuck :
      (fuel : ℕ) (s : DiffState)
      → 0 < block_size
      → (s.last_run ≡ false → InBounds p s)
      → Enough fuel s
      → (rounds p fuel s).0 ≢ some stuck
  rounds-ne-stuck zero s pos v enough = absurd (omega arith)
  rounds-ne-stuck (suc fuel) s pos v enough = elim (Bool-cases s.last_run) [
    | inl l ↦ unfold rounds in ground (arith, l)
    | inr l ↦ elim (Option-cases (round p s).0) [
      | inr (e, bad) ↦ unfold rounds in ground (arith, l, bad, round-ne-stuck s)
      | inl ok ↦
          let next = round_bounds p s pos (v l) l ok in
          rw (rounds_step fuel s l ok) (
            rounds-ne-stuck fuel (round p s).1 pos (λ m. (next m).0)
              (omega (arith, enough.1 l), λ m. omega (arith, enough.1 l, (next m).1)))
    ]
  ]

  -- With blocks that are not empty, the loop of `ComputeDiff` ends, within two rounds more than the
  -- source has bytes: the loop itself never runs out of so much fuel or more, whatever the source,
  -- the library and the writer are, and neither does the call.
  pub compute_diff-ne-stuck :
      (source : Source) (fuel : ℕ)
      → 0 < block_size
      → length source.rest + 2 ≤ fuel
      → ((rounds p fuel (start source)).0 ≢ some stuck) × ((compute_diff p source).0 ≢ some stuck)
  unfolding compute_diff
  compute_diff-ne-stuck source fuel pos enough = (
    loop fuel enough,
    send_waiting-ne-stuck accepts _ _ (loop (length source.rest + 2) (omega arith)),
  )
    where
      loop :
          (fuel : ℕ) → length source.rest + 2 ≤ fuel → (rounds p fuel (start source)).0 ≢ some stuck
      loop fuel enough =
          rounds-ne-stuck fuel (start source) pos (λ l. start-InBounds p source)
            (omega (arith, enough), λ l. omega (arith, enough))

  module _ (all : (ops : List Operation) (op : Operation) → accepts ops op ≡ true) where
    -- An action that succeeds, and leaves the reader as good as it was.
    abbrev Fine : Option DiffError × DiffState → Type 0
    Fine r = (r.0 ≡ none) × (r.1.source.broken ≡ false)

    wrap-Fine : (s : DiffState) → s.source.broken ≡ false → Fine (wrap p s)
    unfolding wrap emit
    wrap-Fine s b = ground (arith, enqueue_total accepts all (op_data (fresh p s)) s.out)

    fill-Fine : (s : DiffState) → s.source.broken ≡ false → Fine (fill p s)
    unfolding fill
    fill-Fine s b = ground (arith, wrap-Fine s b)

    flush-Fine :
        (found : Option BlockHash) (s : DiffState)
        → s.source.broken ≡ false
        → Fine (flush p found s)
    unfolding flush emit
    flush-Fine found s b = ground (arith, enqueue_total accepts all (op_data (fresh p s)) s.out)

    advance-Fine :
        (found : Option BlockHash) (s : DiffState)
        → s.source.broken ≡ false
        → Fine (advance p found s)
    unfolding advance emit
    advance-Fine none s b = ground (
      arith,
      enqueue_total accepts all (op_data (slice s.buffer s.data_tail (length s.buffer))) s.out,
    )
    advance-Fine (some h) s b =
        ground
          (arith, enqueue_total accepts all (op_block_range h.file_index h.block_index 1) s.out)

    round_total : (s : DiffState) → s.source.broken ≡ false → Fine (round p s)
    unfolding round examine
    round_total s b =
        let t = (fill p s).1 in
        let found = find_block p t (next_hash p t) in
        let t' : DiffState = record t { hash = next_hash p t; rolling = true } in
        ground (arith, fill-Fine s b, flush-Fine found t', advance-Fine found (flush p found t').1)

    rounds_total :
        (fuel : ℕ) (s : DiffState)
        → 0 < block_size
        → (s.last_run ≡ false → InBounds p s)
        → Enough fuel s
        → s.source.broken ≡ false
        → (rounds p fuel s).0 ≡ none
    rounds_total zero s pos v enough b = absurd (omega arith)
    rounds_total (suc fuel) s pos v enough b = elim (Bool-cases s.last_run) [
      | inl l ↦ unfold rounds in ground (arith, l)
      | inr l ↦
          let (ok, b') = round_total s b in
          let next = round_bounds p s pos (v l) l ok in
          rw (rounds_step fuel s l ok) (
            rounds_total fuel (round p s).1 pos (λ m. (next m).0)
              (omega (arith, enough.1 l), λ m. omega (arith, enough.1 l, (next m).1)) b')
    ]

    body_total :
        (src : List ℕ)
        → 0 < block_size
        → (rounds p (length src + 2) (start (record { rest = src; broken = false }))).0 ≡ none
    body_total src pos =
        rounds_total (length src + 2) _ pos (λ l. start-InBounds p _) (omega arith) refl

    -- A reader and a writer that do not fail make `ComputeDiff` succeed.
    compute_diff_total :
        (src : List ℕ)
        → 0 < block_size
        → (compute_diff p (record { rest = src; broken = false })).0 ≡ none
    unfolding compute_diff
    compute_diff_total src pos = rw (body_total src pos) (send_waiting_total accepts all _)

-- With a reader and a writer that do not fail, and the genuine hashes of old files as the library,
-- `ComputeDiff` returns no error and gives the writer operations that make up the source: fresh
-- bytes as they are, and ranges of blocks read from the old files.
pub compute_diff_reconstructs :
    (p : Params) (old : ℕ → List ℕ) (src : List ℕ) (hashes : List BlockHash)
    → p.library ≡ new_block_library hashes
    → All (IsGenuine p.unique_hash p.block_size old src) hashes
    → 0 < p.block_size
    → ((ops : List Operation) (op : Operation) → p.accepts ops op ≡ true)
    → let (e, o) = compute_diff p (record { rest = src; broken = false }) in
      (e ≡ none) × (ops_bytes old p.block_size o.sent ≡ src)
compute_diff_reconstructs p old src hashes made genuine pos all =
    let ok = compute_diff_total p all src pos in
    (ok, compute_diff-ops_bytes p old src hashes made genuine pos (body_total p all src pos) ok)
