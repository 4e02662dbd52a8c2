-- ===== src/Wire/Tests.antt =====
-- Tests and witnesses of package wire.
use wharf.Base.{
  ℕ, ◌+◌, ◌-◌, ◌<◌, ◌≤◌, ◌^◌, Bool, true, Option, none, some, List, [], ◌∷◌, ◌++◌, length, All, ◌≡◌,
  refl, arith,
}
use wharf.Wire.{
  read_uvarint, read_full, wrong_magic, unexpected_eof, missing_source_checkpoint, put_uvarint,
  put_int32, SourceCheckpoint, ReadContext, read_message, expect_magic, want_save, on_save,
  pop_checkpoint, resume,
}
use wharf.Wire.Frames.{frames, write_messages, read_messages, read_messages-write_messages}
use wharf.Wire.Saves.{
  reads_message, wants_save, source_saves, Reach, here, later, new_reader, GoesOn, Resumes,
  resume-pop_checkpoint,
}

abbrev always : List ℕ → List ℕ → Bool
always written bytes = true

abbrev messages : List (List ℕ)
messages = (1 ∷ 2 ∷ 3 ∷ []) ∷ [] ∷ (9 ∷ []) ∷ []

abbrev short : All (λ m. length m < 2 ^ 56) messages
short = (omega arith, (omega arith, (omega arith, tt)))

read_messages-write_messages_example :
    let (e, out) = write_messages always messages [] in
    (e ≡ none)
    × (read_messages 3 (record (new_reader []) { rest = out ++ 7 ∷ [] })
        ≡ (none, messages, record (new_reader []) { rest = 7 ∷ []; offset = 0 + length out }))
read_messages-write_messages_example =
    read_messages-write_messages always messages (7 ∷ []) (new_reader []) (λ written bytes. refl)
      short

-- A source that goes on one byte before its checkpoint
abbrev one_before : Option SourceCheckpoint → Option ℕ
one_before none = some 0
one_before (some c) = some (c.source_offset - 1)

abbrev bytes : List ℕ
bytes = frames messages

abbrev saved : ReadContext
saved =
    (read_message
      (on_save (record { source_offset = 4 }) (want_save (read_message (new_reader bytes)).2))).2

saved-reached : Reach (new_reader bytes) saved
unfolding read_message on_save want_save put_uvarint read_uvarint read_full
saved-reached =
    later
      (later (later (later here reads_message) wants_save)
        (source_saves (record { source_offset = 4 }) four))
      reads_message
  where
    four : 4 ≤ 4
    four = omega arith

one_before-GoesOn : GoesOn one_before
one_before-GoesOn c = (c.source_offset - 1, refl, omega arith)

resume-pop_checkpoint_example : Resumes bytes one_before saved (pop_checkpoint saved).0
resume-pop_checkpoint_example =
    resume-pop_checkpoint bytes one_before saved saved-reached one_before-GoesOn

pops :
    ((pop_checkpoint saved).0)
    ≡ some (record { offset = 5; source_checkpoint = some (record { source_offset = 4 }) })
unfolding pop_checkpoint read_message on_save want_save put_uvarint
pops = refl

lengths_of : put_uvarint 301 300 ≡ 172 ∷ 2 ∷ []
unfolding put_uvarint
lengths_of = refl

magic_back : (expect_magic 4711 (new_reader (put_int32 4711))).0 ≡ none
unfolding expect_magic put_int32
magic_back = refl

magic_wrong : (expect_magic 4712 (new_reader (put_int32 4711))).0 ≡ some wrong_magic
unfolding expect_magic put_int32
magic_wrong = refl

cut_off : (read_message (new_reader (5 ∷ 1 ∷ []))).0 ≡ some unexpected_eof
unfolding read_message
cut_off = refl

no_source_checkpoint :
    (resume bytes one_before
      (some (record { offset = 5; source_checkpoint = none }))
      (new_reader [])).0
    ≡ some missing_source_checkpoint
unfolding resume
no_source_checkpoint = refl
