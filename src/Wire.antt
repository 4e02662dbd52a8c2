-- ===== src/Wire.antt =====
-- wire: the framing of the messages of a patch or a signature (write_context.go, read_context.go).
-- A message is the bytes that protobuf makes of it. The source, of the package savior, has bytes
-- and makes checkpoints of itself when it is asked to; `encoding/binary` is modelled as it is used.
pub mod Lengths
pub mod Frames
pub mod Saves
mod Tests
use wharf.Base.{
  ℕ, zero, suc, ◌+◌, ◌-◌, ◌*◌, ◌/◌, ◌%◌, ◌^◌, Bool, true, false, ◌&&◌, Option, none, some, List, [],
  ◌∷◌, ◌++◌, length, take, drop, ltb, ◌==◌, if◌then◌else◌,
}

-- `io.EOF` and `io.ErrUnexpectedEOF` are one.
pub data WireError : Type 0 where
  unexpected_eof overflow wrong_magic write_failed missing_source_checkpoint source_ahead
        source_failed source_not_at_start :
      WireError

-- `binary.PutUvarint`, which panics in the code where the bytes are more than eight; the fuel is
-- the number and one.
unfoldable pub put_uvarint : ℕ → ℕ → List ℕ
put_uvarint zero n = []
put_uvarint (suc fuel) n = elim (ltb n 128) [
  | true ↦ n ∷ []
  | false ↦ (n % 128 + 128) ∷ put_uvarint fuel (n / 128)
]

-- `binary.Write` of an int32 that is not negative, little-endian
unfoldable pub put_int32 : ℕ → List ℕ
put_int32 n = n % 256 ∷ (n / 256) % 256 ∷ (n / 65536) % 256 ∷ (n / 16777216) % 256 ∷ []

-- `WriteContext` over a writer that takes writes or fails: the bytes written, and whether the
-- writer takes more behind them.
module _ (accepts : List ℕ → List ℕ → Bool) where
  unfoldable pub write_bytes : List ℕ → List ℕ → Option WireError × List ℕ
  write_bytes bytes written =
      if accepts written bytes then (none, written ++ bytes) else (some write_failed, written)

  unfoldable pub write_magic : ℕ → List ℕ → Option WireError × List ℕ
  unfolding write_bytes put_int32
  write_magic magic written = write_bytes (put_int32 magic) written

  unfoldable pub write_message : List ℕ → List ℕ → Option WireError × List ℕ
  unfolding write_bytes put_uvarint
  write_message msg written =
      let (e, written') = write_bytes (put_uvarint (length msg + 1) (length msg)) written in
      elim e [ some x ↦ (some x, written') | none ↦ write_bytes msg written' ]

pub data SaveState : Type 0 where
  idle waiting_for_source has_source_checkpoint : SaveState

-- `savior.SourceCheckpoint`, of which the offset is what matters
pub record SourceCheckpoint : Type 0 where
  pub source_offset : ℕ

pub record MessageReaderCheckpoint : Type 0 where
  pub offset : ℕ
  pub source_checkpoint : Option SourceCheckpoint

-- `ReadContext`, with the bytes that the source has left, and whether it was asked for a checkpoint
pub record ReadContext : Type 0 where
  pub rest : List ℕ
  pub offset : ℕ
  pub save_state : SaveState
  pub source_checkpoint : Option SourceCheckpoint
  pub asked : Bool

-- `countingReader.Read` of all of so many bytes (`io.ReadFull`)
unfoldable pub read_full : ℕ → ReadContext → Option (List ℕ) × ReadContext
read_full n r = elim (ltb (length r.rest) n) [
  | true ↦ (none, record r { rest = []; offset = r.offset + length r.rest })
  | false ↦ (some (take n r.rest), record r { rest = drop n r.rest; offset = r.offset + n })
]

pub record Varint : Type 0 where
  pub result : Option ℕ
  pub left : List ℕ
  pub count : ℕ
  pub overflows : Bool

-- `binary.ReadUvarint` of the bytes of a source: the value so far, the weight of the next seven
-- bits, and the number of bytes read.
unfoldable pub read_uvarint : ℕ → ℕ → ℕ → List ℕ → Varint
read_uvarint x weight i [] = record { result = none; left = []; count = i; overflows = false }
read_uvarint x weight i (b ∷ bs) = elim (i == 10) [
  | true ↦ record { result = none; left = b ∷ bs; count = i; overflows = true }
  | false ↦ elim (ltb b 128) [
    | true ↦
        if i == 9 && ltb 1 b
        then record { result = none; left = bs; count = i + 1; overflows = true }
        else record { result = some (x + b * weight); left = bs; count = i + 1; overflows = false }
    | false ↦ read_uvarint (x + b % 128 * weight) (weight * 128) (i + 1) bs
  ]
]

-- `ReadMessage`; the buffer is grown and never too small. Where the length is one that no buffer
-- can have the code panics, here it is read as any other that has too few bytes behind it.
unfoldable pub read_message : ReadContext → Option WireError × List ℕ × ReadContext
unfolding read_uvarint read_full
read_message r =
    let v = read_uvarint 0 1 0 r.rest in
    let r' = record r { rest = v.left; offset = r.offset + v.count } in
    elim v.result [
      | none ↦ (some (if v.overflows then overflow else unexpected_eof), [], r')
      | some n ↦
          let (bytes, r'') = read_full n r' in
          elim bytes [ none ↦ (some unexpected_eof, [], r'') | some bytes ↦ (none, bytes, r'') ]
    ]

unfoldable pub int32_of : List ℕ → ℕ
int32_of [] = 0
int32_of (b ∷ bs) = b + 256 * int32_of bs

-- `ExpectMagic`
unfoldable pub expect_magic : ℕ → ReadContext → Option WireError × ReadContext
unfolding read_full int32_of
expect_magic magic r =
    let (bytes, r') = read_full 4 r in
    elim bytes [
      | none ↦ (some unexpected_eof, r')
      | some bytes ↦ if magic == int32_of bytes then (none, r') else (some wrong_magic, r')
    ]

-- `OnSave`, which the source calls when it was asked and has got to a place where it can
unfoldable pub on_save : SourceCheckpoint → ReadContext → ReadContext
on_save c r = record r {
  source_checkpoint = some c;
  save_state = has_source_checkpoint;
  asked = false;
}

unfoldable pub want_save : ReadContext → ReadContext
want_save r = elim r.save_state [
  | idle ↦ record r { asked = true; save_state = waiting_for_source }
  | waiting_for_source ↦ r
  | has_source_checkpoint ↦ r
]

unfoldable pub pop_checkpoint : ReadContext → Option MessageReaderCheckpoint × ReadContext
pop_checkpoint r = elim r.save_state [
  | has_source_checkpoint ↦ (
    some (record { offset = r.offset; source_checkpoint = r.source_checkpoint }),
    record r { save_state = idle; source_checkpoint = none },
  )
  | idle ↦ (none, r)
  | waiting_for_source ↦ (none, r)
]

-- `resume_source` gives for a checkpoint of the source, or none, the offset where it goes on, and
-- `all` is what it yields from its start.
module _ (all : List ℕ) (resume_source : Option SourceCheckpoint → Option ℕ) where
  abbrev reset : ReadContext → ReadContext
  reset r = record r { save_state = idle; source_checkpoint = none }

  -- The source goes on at the offset, and bytes up to the context's are discarded.
  unfoldable pub align : ℕ → ℕ → ReadContext → Option WireError × ReadContext
  align offset source_offset r =
      if ltb offset source_offset
      then (some source_ahead, record r { rest = drop source_offset all })
      else if ltb (length all) offset
      then (some unexpected_eof, record r { rest = [] })
      else (none, record r { rest = drop offset all; offset = offset })

  unfoldable pub resume :
      Option MessageReaderCheckpoint → ReadContext → Option WireError × ReadContext
  unfolding align
  resume none r = elim (resume_source none) [
    | none ↦ (some source_failed, reset r)
    | some source_offset ↦
        if source_offset == 0
        then (none, record (reset r) { rest = all; offset = 0 })
        else (some source_not_at_start, reset r)
  ]
  resume (some c) r = elim c.source_checkpoint [
    | none ↦ (some missing_source_checkpoint, reset r)
    | some sc ↦ elim (resume_source (some sc)) [
      | none ↦ (some source_failed, reset r)
      | some source_offset ↦ align c.offset source_offset (reset r)
    ]
  ]
