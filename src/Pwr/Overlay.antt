-- ===== src/Pwr/Overlay.antt =====
-- pwr/overlay: `overlayWriter` (overlay_writer.go), which sends only what differs from the old file,
-- and `OverlayPatchContext.Patch` (overlay_patch.go), which writes it over the old file. The sizes
-- of the buffer and of the shortest skip are parameters, `code_sizes` those of the code. A message
-- on the wire is a `Record`; the header is an empty message, which decodes to a skip of 0 bytes.
pub mod Replay
pub mod Emit
pub mod Compare
pub mod Process
pub mod Buffer
pub mod RoundTrip
mod Tests
use wharf.Base.{
  ℕ, zero, suc, ◌+◌, ◌-◌, ◌*◌, Bool, true, false, Option, none, some, List, [], ◌∷◌, ◌++◌, length,
  take, drop, replicate, slice, ltb, ◌==◌, if◌then◌else◌,
}

pub data OverlayOp : Type 0 where
  skip : ℕ → OverlayOp
  fresh : List ℕ → OverlayOp
  hey_you_did_it : OverlayOp

pub data Record : Type 0 where
  magic : ℕ → Record
  header : Record
  op : OverlayOp → Record

-- `OverlayMagic`
abbrev pub overlay_magic : ℕ
overlay_magic = 267349760

-- `stuck` is no Go value: a loop of the model ran out of fuel.
pub data OverlayError : Type 0 where
  read_failed write_failed short_write seek_failed wrong_magic bad_message unexpected_eof stuck :
      OverlayError

-- `overlayBufSize` and `overlaySameThreshold`
pub record Sizes : Type 0 where
  pub buf_size : ℕ
  pub same_threshold : ℕ

abbrev pub code_sizes : Sizes
code_sizes = record { buf_size = 128 * 1024; same_threshold = 8 * 1024 }

-- `overlayWriter`: what the old file's reader has not yielded, `readOffset`, the bytes that `bw`
-- holds back, and the messages written.
pub record OverlayWriter : Type 0 where
  pub rest : List ℕ
  pub read_offset : ℕ
  pub buffered : List ℕ
  pub records : List Record

abbrev pub Step : Type 0
Step = OverlayWriter → Option OverlayError × OverlayWriter

abbrev pub done : Step
done w = (none, w)

abbrev pub after : Option OverlayError → Step → Step
after none k w = k w
after (some e) k w = (some e, w)

infixl 10 ◌>>◌
abbrev pub ◌>>◌ : Step → Step → Step
◌>>◌ m k w = let (e, w') = m w in after e k w'

abbrev pub when : Bool → Step → Step
when b m = if b then m else done

-- `read` gives for the old file's unread bytes and a length how many bytes a Read returns, or that
-- it fails; `accepts` whether the underlying writer takes a message behind those it took.
pub record Streams : Type 0 where
  pub read : List ℕ → ℕ → Option ℕ
  pub accepts : List Record → Record → Bool

module _ (sizes : Sizes) (io : Streams) where
  open sizes use {buf_size, same_threshold}
  open io use {read, accepts}

  pub write_message : Record → Step
  write_message r w =
      if accepts w.records r
      then (none, record w { records = w.records ++ (r ∷ []) })
      else (some write_failed, w)

  pub write_fresh : List ℕ → Step
  unfolding write_message
  write_fresh bytes = write_message (op (fresh bytes)) >> λ (w : OverlayWriter).
      (none, record w { read_offset = w.read_offset + length bytes })

  pub write_skip : ℕ → Step
  unfolding write_message
  write_skip n = write_message (op (skip n)) >> λ (w : OverlayWriter).
      (none, record w { read_offset = w.read_offset + n })

  -- `commit`: the fresh bytes before the streak, and a skip over the streak.
  pub commit : List ℕ → ℕ → ℕ → ℕ → Step
  unfolding write_fresh write_skip
  commit buf i last_op same =
      when (ltb 0 (i - same - last_op)) (write_fresh (slice buf last_op (i - same)))
      >> write_skip same

  -- What is left of the compared bytes, and what the old file is too short for.
  pub write_tail : List ℕ → ℕ → ℕ → Step
  unfolding write_fresh
  write_tail buf i last_op =
      when (ltb last_op i) (write_fresh (slice buf last_op i))
      >> when (ltb i (length buf)) (write_fresh (drop i buf))

  pub finish_block : List ℕ → ℕ → ℕ → ℕ → Step
  unfolding commit write_tail
  finish_block buf i last_op same =
      if ltb same_threshold same
      then commit buf i last_op same >> write_tail buf i i
      else write_tail buf i last_op

  -- `for i := 0; i < rbuflen; i++`; the lists are what is left of `rbuf` and of `buf`.
  pub compare_loop : List ℕ → List ℕ → List ℕ → ℕ → ℕ → ℕ → Step
  compare_loop buf (r ∷ rs) (b ∷ bs) i last_op same = elim (r == b) [
    | true ↦ compare_loop buf rs bs (i + 1) last_op (same + 1)
    | false ↦ elim (ltb same_threshold same) [
      | true ↦ commit buf i last_op same >> compare_loop buf rs bs (i + 1) i 0
      | false ↦ compare_loop buf rs bs (i + 1) last_op 0
    ]
  ]
  compare_loop buf _ _ i last_op same = finish_block buf i last_op same

  -- `overlayProcessor.write` of a piece that is not longer than the buffer
  pub process_block : List ℕ → Step
  unfolding compare_loop finish_block
  process_block buf w = elim (read w.rest (length buf)) [
    | none ↦ (some read_failed, w)
    | some n ↦ compare_loop buf (take n w.rest) buf 0 0 0 (record w { rest = drop n w.rest })
  ]

  -- `overlayProcessor.Write`: what is written is measured against what is left of the bytes.
  pub process : ℕ → List ℕ → ℕ → OverlayWriter → Option OverlayError × (ℕ × OverlayWriter)
  process zero buf written w = (some stuck, (written, w))
  process (suc fuel) buf written w = elim (ltb written (length buf)) [
    | false ↦ (none, (written, w))
    | true ↦
        let (e, w') = process_block (take buf_size buf) w in
        elim e [
          | some x ↦ (some x, (written, w'))
          | none ↦ process fuel (drop buf_size buf) (written + length (take buf_size buf)) w'
        ]
  ]

  pub processor_write : List ℕ → OverlayWriter → Option OverlayError × (ℕ × OverlayWriter)
  unfolding process process_block
  processor_write buf = process (length buf + 1) buf 0

  -- `bufio.Writer.Flush`
  pub flush : Step
  unfolding processor_write
  flush w = elim (length w.buffered == 0) [
    | true ↦ (none, w)
    | false ↦
        let (e, (n, w')) = processor_write w.buffered w in
        let kept : OverlayWriter = record w' { buffered = drop n w.buffered } in
        elim e [
          | some x ↦ (some x, kept)
          | none ↦ if ltb n (length w.buffered) then (some short_write, kept) else (none, kept)
        ]
  ]

  -- `bufio.Writer.Write`: long writes go past an empty buffer. (A `bufio.Writer` that has failed
  -- also fails at every later write; that is left out.)
  pub buffer_write : ℕ → List ℕ → Step
  buffer_write zero p w = (some stuck, w)
  buffer_write (suc fuel) p w = elim (ltb (buf_size - length w.buffered) (length p)) [
    | false ↦ (none, record w { buffered = w.buffered ++ p })
    | true ↦ elim (length w.buffered == 0) [
      | true ↦
          let (e, (n, w')) = processor_write p w in
          elim e [ some x ↦ (some x, w') | none ↦ buffer_write fuel (drop n p) w' ]
      | false ↦
          let n = buf_size - length w.buffered in
          (flush >> buffer_write fuel (drop n p)) (record w { buffered = w.buffered ++ take n p })
    ]
  ]

  -- `overlayWriter.Write`
  unfoldable pub write : List ℕ → Step
  unfolding buffer_write flush
  write buf = buffer_write (2 * length buf + 2) buf

  unfoldable pub finalize : Step
  unfolding flush
  finalize = flush >> write_message (op hey_you_did_it)

  -- `NewOverlayWriter`; a writer that goes on with an overlay writes no header.
  unfoldable pub new_overlay_writer : List ℕ → ℕ → ℕ → Option OverlayError × OverlayWriter
  unfolding write_message
  new_overlay_writer r read_offset overlay_offset =
      when (overlay_offset == 0) (write_message (magic overlay_magic) >> write_message header)
        (record { rest = r; read_offset = read_offset; buffered = []; records = [] })

  -- What a client does: writes of any size, until one fails.
  unfoldable pub write_all : List (List ℕ) → Step
  unfolding write
  write_all [] = done
  write_all (piece ∷ pieces) = write piece >> write_all pieces

-- `io.WriteSeeker`: a file and a position in it.
pub record Target : Type 0 where
  pub content : List ℕ
  pub pos : ℕ

-- Writing past the end fills the gap with zeros.
pub overwrite : List ℕ → Target → Target
overwrite bytes t = record {
  content =
      take t.pos t.content
      ++ (replicate (t.pos - length t.content) 0
          ++ (bytes ++ drop (t.pos + length bytes) t.content));
  pos = t.pos + length bytes;
}

module _ (works : Target → OverlayOp → Bool) where
  unfoldable pub patch_ops : List Record → Target → Option OverlayError × Target
  unfolding overwrite
  patch_ops [] t = (some unexpected_eof, t)
  patch_ops (magic m ∷ rs) t = (some bad_message, t)
  patch_ops (header ∷ rs) t = elim (works t (skip 0)) [
    | true ↦ patch_ops rs t
    | false ↦ (some seek_failed, t)
  ]
  patch_ops (op (skip n) ∷ rs) t = elim (works t (skip n)) [
    | true ↦ patch_ops rs (record t { pos = t.pos + n })
    | false ↦ (some seek_failed, t)
  ]
  patch_ops (op (fresh bytes) ∷ rs) t = elim (works t (fresh bytes)) [
    | true ↦ patch_ops rs (overwrite bytes t)
    | false ↦ (some write_failed, t)
  ]
  patch_ops (op hey_you_did_it ∷ rs) t = (none, t)

  -- `OverlayPatchContext.Patch`
  unfoldable pub patch : List Record → Target → Option OverlayError × Target
  unfolding patch_ops
  patch [] t = (some unexpected_eof, t)
  patch (magic m ∷ rs) t = elim (m == overlay_magic) [
    | true ↦ patch_ops rs t
    | false ↦ (some wrong_magic, t)
  ]
  patch (header ∷ rs) t = (some wrong_magic, t)
  patch (op o ∷ rs) t = (some wrong_magic, t)
