-- ===== src/Pwr/Patcher/Checkpoints.antt =====
-- The checkpoints that the loops of pwr/patcher make, and the deferred calls of `Close`.
use wharf.Base.{true, false, Option, none, some, List}
use wharf.Pwr.Patcher.{
  Message, PatchError, stopped, call_failed, Checkpoint, AfterSave, save_failed, continue, stop,
  Services, Outcome, then_call,
}

module _ {B W S : Type 0} (env : Services B W S) where
  open env use {
    resume_bowl, save_bowl, get_writer, resume_writer, save_writer, tell, finalize, close_writer,
    transpose, apply_single, open_old, new_context, apply_control, old_offset, should_save,
    pop_checkpoint, save,
  }

  -- The answer of the consumer
  unfoldable pub after_save : AfterSave × S → Option PatchError × S
  after_save (save_failed, s) = (some call_failed, s)
  after_save (continue, s) = (none, s)
  after_save (stop, s) = (some stopped, s)

  unfoldable pub save_both : (B → W → S → Checkpoint B W) → S → Option PatchError × S
  unfolding after_save
  save_both make s =
      let (b, s') = save_bowl s in
      elim b [
        | none ↦ (some call_failed, s')
        | some b ↦
            let (w, s'') = save_writer s' in
            elim w [
              | none ↦ (some call_failed, s'')
              | some w ↦ after_save (save (make b w s'') s'')
            ]
      ]

  -- What both loops begin with: a checkpoint, if one is wanted and the messages have one
  unfoldable pub save_if_due : (B → W → S → Checkpoint B W) → S → Option PatchError × S
  unfolding save_both
  save_if_due make s =
      let (wanted, s') = should_save s in
      elim wanted [
        | false ↦ (none, s')
        | true ↦
            let (ready, s'') = pop_checkpoint s' in
            elim ready [ false ↦ (none, s'') | true ↦ save_both make s'' ]
      ]

  -- The deferred close of a writer that was resumed: its error counts if there is none yet.
  unfoldable pub close_resumed : Outcome S → Outcome S
  close_resumed (some e, ms, s) = (some e, ms, (close_writer s).1)
  close_resumed (none, ms, s) = then_call (close_writer s) ms (λ s'. (none, ms, s'))

  -- That of a new file's writer: the error goes to a variable that shadows the result.
  unfoldable pub close_new : Outcome S → Outcome S
  close_new (e, ms, s) = (e, ms, (close_writer s).1)

  -- The end of a file
  abbrev pub finish_file : List Message → S → Outcome S
  finish_file ms s = then_call (finalize s) ms (λ s'. (none, ms, s'))
