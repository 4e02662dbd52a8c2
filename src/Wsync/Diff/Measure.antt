-- ===== src/Wsync/Diff/Measure.antt =====
-- What `fill` leaves for the rest of a round: a whole block in the window, or the end of the
-- source; and how many bytes are left.
use wharf.Base.{
  ℕ, ◌+◌, ◌-◌, ◌≤◌, ◌<◌, ◌≡◌, true, false, Option, none, [], arith, length, take, length-drop,
  length-append, length-take, drop_all,
}
use wharf.Wsync.Diff.{Params, DiffState, emit, wrap, read_block, fill, flush}
use wharf.Wsync.Types.{BlockHash}

-- The bytes from the window's start on, in the buffer and in the source.
abbrev pub left : DiffState → ℕ
left s = (length s.buffer - s.sum_tail) + length s.source.rest

module _ (p : Params) where
  open p use {block_size}

  pub record Filled (s t : DiffState) : Type 0 where
    pub within : t.sum_tail ≤ length t.buffer
    pub left_same : left t ≡ left s
    pub whole_block : t.last_run ≡ false → t.sum_tail + block_size ≤ length t.buffer
    pub short_lt : t.last_run ≡ true → t.short_size < block_size
    pub short_tail : t.last_run ≡ true → length t.buffer < t.sum_tail + block_size + t.short_size
    pub drained : t.last_run ≡ true → t.source.rest ≡ []

  wrap_frame :
      (s : DiffState)
      → (wrap p s).0 ≡ none
      → ((wrap p s).1.last_run ≡ s.last_run)
        × ((wrap p s).1.source ≡ s.source)
        × ((wrap p s).1.sum_tail ≡ 0)
        × (length (wrap p s).1.buffer ≡ length s.buffer - s.sum_tail)
  unfolding wrap emit
  wrap_frame s h = ground (arith, length-drop s.sum_tail s.buffer)

  read_block-Filled :
      (s : DiffState)
      → s.sum_tail ≤ length s.buffer
      → length s.buffer < s.sum_tail + block_size
      → s.last_run ≡ false
      → (read_block p s).0 ≡ none
      → Filled s (read_block p s).1
  unfolding read_block
  read_block-Filled s v lt e h = ground (
    arith,
    length-append s.buffer (take block_size s.source.rest),
    length-take block_size s.source.rest,
    length-drop block_size s.source.rest,
    drop_all block_size s.source.rest,
  )

  pub fill-Filled :
      (s : DiffState)
      → s.sum_tail ≤ length s.buffer
      → s.last_run ≡ false
      → (fill p s).0 ≡ none
      → Filled s (fill p s).1
  unfolding fill
  fill-Filled s v e h =
      ground (arith, wrap_frame s, read_block-Filled s, read_block-Filled (wrap p s).1)

  pub flush-Filled :
      (r s : DiffState) (found : Option BlockHash) → Filled r s → Filled r (flush p found s).1
  unfolding flush emit
  flush-Filled r s found m = ground arith
