-- ===== src/Pwr/Drip.antt =====
-- pwr/drip: a writer that relays writes of any size as writes of its buffer's length. The
-- underlying writer, with the validation before it, is a state `S`; both may fail with an error of
-- `E`. The model's buffer is the bytes of the Go buffer below `offset`.
pub mod Chunks
pub mod Close
mod Tests
use wharf.Base.{
  ℕ, zero, suc, ◌+◌, ◌-◌, Bool, true, false, Option, none, some, List, [], ◌∷◌, ◌++◌, length, take,
  drop, min, ltb, ◌==◌, if◌then◌else◌,
}

-- `stuck` is no Go value: the loop of the model ran out of fuel, as it does with no buffer.
pub data DripError (E : Type 0) : Type 0 where
  stuck : DripError E
  sink_failed : E → DripError E

-- `Validate`, which may be nil, and the writer's `Write` and, if it is an `io.Closer`, `Close`
pub record Sink (S E : Type 0) : Type 0 where
  pub validate : Option (List ℕ → S → Option E × S)
  pub write : List ℕ → S → Option E × S
  pub close : Option (S → Option E × S)

pub record Writer (S : Type 0) : Type 0 where
  pub buffer : List ℕ
  pub sink : S

module _ {S E : Type 0} (len : ℕ) (k : Sink S E) where
  -- The bytes are validated, and then written.
  pub relay : List ℕ → S → Option E × S
  relay buf s = elim k.validate [
    | none ↦ k.write buf s
    | some validate ↦
        let (e, s') = validate buf s in elim e [ some x ↦ (some x, s') | none ↦ k.write buf s' ]
  ]

  -- The loop of `Write`, with what is left of the data.
  pub drip : ℕ → List ℕ → Writer S → Option (DripError E) × Writer S
  unfolding relay
  drip fuel [] w = (none, w)
  drip zero (b ∷ bs) w = (some stuck, w)
  drip (suc fuel) (b ∷ bs) w =
      let n = min (length (b ∷ bs)) (len - length w.buffer) in
      let buffer = w.buffer ++ take n (b ∷ bs) in
      elim (length buffer == len) [
        | false ↦ drip fuel (drop n (b ∷ bs)) (record w { buffer = buffer })
        | true ↦
            let (e, s) = relay buffer w.sink in
            elim e [
              | some x ↦ (some (sink_failed x), record { buffer = buffer; sink = s })
              | none ↦ drip fuel (drop n (b ∷ bs)) (record { buffer = []; sink = s })
            ]
      ]

  -- `Writer.Write`
  pub write : List ℕ → Writer S → Option (DripError E) × Writer S
  unfolding drip
  write bytes = drip (length bytes + 1) bytes

  -- The deferred function of `Close`: an error of its own counts only where there is none yet.
  pub close_sink : Option E × Writer S → Option E × Writer S
  close_sink (e, w) = elim k.close [
    | none ↦ (e, w)
    | some close ↦
        let (e', s) = close w.sink in
        (elim e [ none ↦ e' | some x ↦ some x ], record w { sink = s })
  ]

  -- `Writer.Close`
  unfoldable pub close : Writer S → Option E × Writer S
  unfolding relay close_sink
  close w = close_sink (elim w.buffer [
    | [] ↦ (none, w)
    | b ∷ bs ↦
        let (e, s) = relay (b ∷ bs) w.sink in
        (e, elim e [ none ↦ record { buffer = []; sink = s } | some x ↦ record w { sink = s } ])
  ])

  -- What a client does: writes of any size, until one fails.
  unfoldable pub write_all : List (List ℕ) → Writer S → Option (DripError E) × Writer S
  unfolding write
  write_all [] w = (none, w)
  write_all (piece ∷ pieces) w =
      let (e, w') = write piece w in elim e [ some x ↦ (some x, w') | none ↦ write_all pieces w' ]
