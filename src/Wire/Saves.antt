-- ===== src/Wire/Saves.antt =====
-- The checkpoints of a reader of messages (wire/read_context.go).
use wharf.Base.{
  ℕ, ◌+◌, ◌≤◌, Bool, false, Option, none, some, List, [], ◌∷◌, ◌++◌, append_assoc, append-nil,
  length-take, ◌%◌, ◌*◌, ◌&&◌, length, length-append, take, drop, take-append-drop, ◌≡◌, refl, sym,
  ap, ◌∙◌, ltb, ◌==◌, arith, Bool-cases, inl, inr, if◌then◌else◌,
}
use wharf.Wire.Frames.{drop_first, after_length, after_read}
use wharf.Wire.{
  WireError, SaveState, idle, waiting_for_source, has_source_checkpoint, SourceCheckpoint,
  MessageReaderCheckpoint, ReadContext, read_full, Varint, read_uvarint, read_message, expect_magic,
  int32_of, unexpected_eof, wrong_magic, on_save, want_save, pop_checkpoint, align, resume,
}

-- The bytes left are those behind the first so many of the source's.
abbrev pub Placed : List ℕ → ℕ → List ℕ → Type 0
Placed all offset rest = (pre : List ℕ) × (all ≡ pre ++ rest) × (offset ≡ length pre)

-- A checkpoint that is held is of a place not behind the reader's.
abbrev pub Held : SaveState → Option SourceCheckpoint → ℕ → Type 0
Held idle c offset = Unit
Held waiting_for_source c offset = Unit
Held has_source_checkpoint none offset = ⊥
Held has_source_checkpoint (some c) offset = c.source_offset ≤ offset

abbrev pub IsReader : List ℕ → ReadContext → Type 0
IsReader all r = Placed all r.offset r.rest × Held r.save_state r.source_checkpoint r.offset

-- What a reader's caller does, and its source
pub data Step (r : ReadContext) : ReadContext → Type 0 where
  reads_message : Step r (read_message r).2
  expects_magic : (magic : ℕ) → Step r (expect_magic magic r).1
  wants_save : Step r (want_save r)
  source_saves : (c : SourceCheckpoint) → c.source_offset ≤ r.offset → Step r (on_save c r)
  pops_checkpoint : Step r (pop_checkpoint r).1

pub data Reach (start : ReadContext) : ReadContext → Type 0 where
  here : Reach start start
  later : {r t : ReadContext} → Reach start r → Step r t → Reach start t

Placed-later :
    (all rest read left : List ℕ) (offset n : ℕ)
    → Placed all offset rest
    → rest ≡ read ++ left
    → n ≡ length read
    → Placed all (offset + n) left
Placed-later all rest read left offset n (pre, e, o) split h = (
  pre ++ read,
  e ∙ ap (λ t. pre ++ t) split ∙ sym (append_assoc pre read left),
  omega (arith, length-append pre read),
)

Held-later :
    (s : SaveState) (c : Option SourceCheckpoint) (offset n : ℕ)
    → Held s c offset
    → Held s c (offset + n)
Held-later idle c offset n h = h
Held-later waiting_for_source c offset n h = h
Held-later has_source_checkpoint none offset n h = h
Held-later has_source_checkpoint (some c) offset n h = omega (arith, h)

IsReader-later :
    (all read left : List ℕ) (r : ReadContext) (n : ℕ)
    → IsReader all r
    → r.rest ≡ read ++ left
    → n ≡ length read
    → IsReader all (record r { rest = left; offset = r.offset + n })
IsReader-later all read left r n (p, s) split h = (
  Placed-later all r.rest read left r.offset n p split h,
  Held-later r.save_state r.source_checkpoint r.offset n s,
)

read_full-IsReader :
    (all : List ℕ) (n : ℕ) (r : ReadContext) → IsReader all r → IsReader all (read_full n r).1
unfolding read_full
read_full-IsReader all n r h = elim (Bool-cases (ltb (length r.rest) n)) [
  | inl e ↦
      rw (read_full, e)
        (IsReader-later all r.rest [] r (length r.rest) h (sym (append-nil r.rest)) refl)
  | inr e ↦
      rw (read_full, e)
        (IsReader-later all (take n r.rest) (drop n r.rest) r n h (sym (take-append-drop n r.rest))
          (ground (arith, e, length-take n r.rest)))
]

-- The bytes of a length that was read, or not
Counted : List ℕ → ℕ → Varint → Type 0
Counted bytes i v = (read : List ℕ) × (bytes ≡ read ++ v.left) × (v.count ≡ i + length read)

read_uvarint-Counted :
    (x weight i : ℕ) (bytes : List ℕ) → Counted bytes i (read_uvarint x weight i bytes)
unfolding read_uvarint Counted
read_uvarint-Counted x weight i [] = ([], refl, omega arith)
read_uvarint-Counted x weight i (b ∷ bs) = elim (Bool-cases (i == 10)) [
  | inl e ↦ rw (read_uvarint, e) ([], refl, omega arith)
  | inr e ↦ elim (Bool-cases (ltb b 128)) [
    | inl f ↦ elim (Bool-cases (i == 9 && ltb 1 b)) [
      | inl g ↦ rw (read_uvarint, e, f, g) (b ∷ [], refl, omega arith)
      | inr g ↦ rw (read_uvarint, e, f, g) (b ∷ [], refl, omega arith)
    ]
    | inr f ↦
        rw (read_uvarint, e, f)
          (let (read, split, n) =
              read_uvarint-Counted (x + b % 128 * weight) (weight * 128) (i + 1) bs in
            (b ∷ read, ap (λ t. b ∷ t) split, omega (arith, n)))
  ]
]

after_read-IsReader :
    (all : List ℕ) (p : Option (List ℕ) × ReadContext)
    → IsReader all p.1
    → IsReader all (after_read p).2
after_read-IsReader all (none, r) h = h
after_read-IsReader all (some bytes, r) h = h

after_length-IsReader :
    (all : List ℕ) (r : ReadContext) (result : Option ℕ) (left : List ℕ) (count : ℕ)
    (overflows : Bool)
    → IsReader all (record r { rest = left; offset = r.offset + count })
    → IsReader all
        (after_length r
          (record { result = result; left = left; count = count; overflows = overflows })).2
after_length-IsReader all r none left count overflows h = h
after_length-IsReader all r (some n) left count overflows h =
    let r' = record r { rest = left; offset = r.offset + count } in
    after_read-IsReader all (read_full n r') (read_full-IsReader all n r' h)

read_message-IsReader :
    (all : List ℕ) (r : ReadContext) → IsReader all r → IsReader all (read_message r).2
unfolding read_message Counted
read_message-IsReader all r h =
    let v = read_uvarint 0 1 0 r.rest in
    let (read, split, n) = read_uvarint-Counted 0 1 0 r.rest in
    after_length-IsReader all r v.result v.left v.count v.overflows
      (IsReader-later all read v.left r v.count h split (omega (arith, n)))

abbrev after_magic : ℕ → Option (List ℕ) × ReadContext → Option WireError × ReadContext
after_magic magic p = elim p.0 [
  | none ↦ (some unexpected_eof, p.1)
  | some bytes ↦ if magic == int32_of bytes then (none, p.1) else (some wrong_magic, p.1)
]

after_magic-IsReader :
    (all : List ℕ) (magic : ℕ) (p : Option (List ℕ) × ReadContext)
    → IsReader all p.1
    → IsReader all (after_magic magic p).1
after_magic-IsReader all magic (none, r) h = h
after_magic-IsReader all magic (some bytes, r) h = elim (Bool-cases (magic == int32_of bytes)) [
  | inl e ↦ rw e h
  | inr e ↦ rw e h
]

expect_magic-IsReader :
    (all : List ℕ) (magic : ℕ) (r : ReadContext)
    → IsReader all r
    → IsReader all (expect_magic magic r).1
unfolding expect_magic
expect_magic-IsReader all magic r h =
    after_magic-IsReader all magic (read_full 4 r) (read_full-IsReader all 4 r h)

want_save-IsReader :
    (all rest : List ℕ) (offset : ℕ) (st : SaveState) (c : Option SourceCheckpoint) (asked : Bool)
    → Placed all offset rest × Held st c offset
    → IsReader all (
        want_save (record {
          rest = rest;
          offset = offset;
          save_state = st;
          source_checkpoint = c;
          asked = asked;
        }))
unfolding want_save
want_save-IsReader all rest offset idle c asked (p, s) = (p, tt)
want_save-IsReader all rest offset waiting_for_source c asked h = h
want_save-IsReader all rest offset has_source_checkpoint c asked h = h

pop_checkpoint-IsReader :
    (all rest : List ℕ) (offset : ℕ) (st : SaveState) (c : Option SourceCheckpoint) (asked : Bool)
    → Placed all offset rest × Held st c offset
    → IsReader all
        (pop_checkpoint (record {
          rest = rest;
          offset = offset;
          save_state = st;
          source_checkpoint = c;
          asked = asked;
        })).1
unfolding pop_checkpoint
pop_checkpoint-IsReader all rest offset idle c asked h = h
pop_checkpoint-IsReader all rest offset waiting_for_source c asked h = h
pop_checkpoint-IsReader all rest offset has_source_checkpoint c asked (p, s) = (p, tt)

Step-IsReader : (all : List ℕ) {r t : ReadContext} → Step r t → IsReader all r → IsReader all t
unfolding on_save
Step-IsReader all {r} reads_message h = read_message-IsReader all r h
Step-IsReader all {r} (expects_magic magic) h = expect_magic-IsReader all magic r h
Step-IsReader all {r} wants_save h =
    want_save-IsReader all r.rest r.offset r.save_state r.source_checkpoint r.asked h
Step-IsReader all {r} (source_saves c before) h = (h.0, before)
Step-IsReader all {r} pops_checkpoint h =
    pop_checkpoint-IsReader all r.rest r.offset r.save_state r.source_checkpoint r.asked h

Reach-IsReader :
    (all : List ℕ) {start r : ReadContext} → Reach start r → IsReader all start → IsReader all r
Reach-IsReader all here h = h
Reach-IsReader all (later before step) h = Step-IsReader all step (Reach-IsReader all before h)

abbrev pub new_reader : List ℕ → ReadContext
new_reader all = record {
  rest = all;
  offset = 0;
  save_state = idle;
  source_checkpoint = none;
  asked = false;
}

new_reader-IsReader : (all : List ℕ) → IsReader all (new_reader all)
new_reader-IsReader all = (([], refl, refl), tt)

-- The source goes on at a place not behind its checkpoint's.
abbrev pub GoesOn : (Option SourceCheckpoint → Option ℕ) → Type 0
GoesOn resume_source =
    (c : SourceCheckpoint) → (o : ℕ) × (resume_source (some c) ≡ some o) × o ≤ c.source_offset

-- What a checkpoint that was popped, if any, is good for
abbrev pub Resumes :
    List ℕ
    → (Option SourceCheckpoint → Option ℕ)
    → ReadContext
    → Option MessageReaderCheckpoint
    → Type 0
Resumes all resume_source r none = Unit
Resumes all resume_source r (some c) =
    (other : ReadContext)
    → resume all resume_source (some c) other ≡ (
      none,
      record other {
        rest = r.rest;
        offset = r.offset;
        save_state = idle;
        source_checkpoint = none;
      },
    )

align-Placed :
    (resume_source : Option SourceCheckpoint → Option ℕ) (all rest : List ℕ) (offset o : ℕ)
    (other : ReadContext)
    → Placed all offset rest
    → o ≤ offset
    → align all resume_source offset o other ≡ (none, record other { rest = rest; offset = offset })
unfolding align
align-Placed rs all rest offset o other (pre, e, n) before =
    rw (align, not_ahead, not_short)
      (ap (λ t. (none, record other { rest = t; offset = offset })) left)
  where
    not_ahead : ltb offset o ≡ false
    not_ahead = ground (arith, before)

    not_short : ltb (length all) offset ≡ false
    not_short = ground (arith, n, ap length e, length-append pre rest)

    left : drop offset all ≡ rest
    left = ap (drop offset) e ∙ drop_first offset pre rest n

pop_checkpoint-Resumes :
    (all : List ℕ) (resume_source : Option SourceCheckpoint → Option ℕ) (rest : List ℕ) (offset : ℕ)
    (st : SaveState) (c : Option SourceCheckpoint) (asked : Bool)
    → GoesOn resume_source
    → Placed all offset rest × Held st c offset
    → let r : ReadContext = record {
      rest = rest;
      offset = offset;
      save_state = st;
      source_checkpoint = c;
      asked = asked;
    } in
      Resumes all resume_source r (pop_checkpoint r).0
unfolding pop_checkpoint resume
pop_checkpoint-Resumes all rs rest offset idle c asked goes h = tt
pop_checkpoint-Resumes all rs rest offset waiting_for_source c asked goes h = tt
pop_checkpoint-Resumes all rs rest offset has_source_checkpoint none asked goes (p, h) = absurd h
pop_checkpoint-Resumes all rs rest offset has_source_checkpoint (some c) asked goes (p, h) =
    λ other.
      let (o, e, before) = goes c in
      rw (resume, e)
        (align-Placed rs all rest offset o
          (record other { save_state = idle; source_checkpoint = none }) p
          (omega (arith, h, before)))

-- A reader that was new and has read messages and magic numbers, with or without errors, wanted
-- checkpoints, got them from a source that places them not behind the reader, and given them away:
-- if it gives a checkpoint away then, any reader of the same bytes that resumes from it does so
-- without an error and has the same offset and the same bytes left, where the source resumes at a
-- place not behind its own checkpoint's.
pub resume-pop_checkpoint :
    (all : List ℕ) (resume_source : Option SourceCheckpoint → Option ℕ) (r : ReadContext)
    → Reach (new_reader all) r
    → GoesOn resume_source
    → Resumes all resume_source r (pop_checkpoint r).0
resume-pop_checkpoint all resume_source r reach goes =
    pop_checkpoint-Resumes all resume_source r.rest r.offset r.save_state r.source_checkpoint
      r.asked goes (Reach-IsReader all reach (new_reader-IsReader all))
