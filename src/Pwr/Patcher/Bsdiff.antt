-- ===== src/Pwr/Patcher/Bsdiff.antt =====
-- `processBsdiff` of pwr/patcher/patcher_bsdiff.go
use wharf.Base.{ℕ, none, some, List, [], ◌∷◌, get_elem?, ◌==◌, if◌then◌else◌}
use wharf.Pwr.Patcher.{
  block_range, data_op, hey_you_did_it, unknown_op, SyncHeader, Message, sync_header, sync_op,
  bsdiff_header, control, control_eof, unexpected_eof, bad_message, no_sentinel, wrong_size,
  panicked, kind_bsdiff, BsdiffCheckpoint, Checkpoint, Services, Outcome, then_call,
}
use wharf.Pwr.Patcher.Checkpoints.{save_if_due, close_resumed, close_new, finish_file}

module _ {B W S : Type 0} (env : Services B W S) where
  open env use {
    resume_bowl, save_bowl, get_writer, resume_writer, save_writer, tell, finalize, close_writer,
    transpose, apply_single, open_old, new_context, apply_control, old_offset, should_save,
    pop_checkpoint, save,
  }

  pub bsdiff_checkpoint_of : SyncHeader → ℕ → List Message → B → W → S → Checkpoint B W
  bsdiff_checkpoint_of sh target_index ms b w s = record {
    file_index = sh.file_index;
    file_kind = kind_bsdiff;
    sync_header = some sh;
    message_checkpoint = ms;
    bowl_checkpoint = some b;
    rsync_checkpoint = none;
    bsdiff_checkpoint =
        some (record {
          writer_checkpoint = w;
          old_offset = old_offset s;
          target_index = target_index;
        });
  }

  -- What is behind the loop: the sentinel, the size, and the end of the file
  unfoldable pub finish_bsdiff : List ℕ → SyncHeader → List Message → S → Outcome S
  finish_bsdiff source sh [] s = (some unexpected_eof, [], s)
  finish_bsdiff source sh (sync_op hey_you_did_it ∷ ms) s = elim (get_elem? source sh.file_index) [
    | none ↦ (some panicked, ms, s)
    | some size ↦ if tell s == size then finish_file env ms s else (some wrong_size, ms, s)
  ]
  finish_bsdiff source sh (sync_op (block_range file block span) ∷ ms) s = (some no_sentinel, ms, s)
  finish_bsdiff source sh (sync_op (data_op bytes) ∷ ms) s = (some no_sentinel, ms, s)
  finish_bsdiff source sh (sync_op unknown_op ∷ ms) s = (some no_sentinel, ms, s)
  finish_bsdiff source sh (sync_header h ∷ ms) s = (some bad_message, ms, s)
  finish_bsdiff source sh (bsdiff_header i ∷ ms) s = (some bad_message, ms, s)
  finish_bsdiff source sh (control c ∷ ms) s = (some bad_message, ms, s)
  finish_bsdiff source sh (control_eof ∷ ms) s = (some bad_message, ms, s)

  -- The loop
  unfoldable pub relay_controls : List ℕ → SyncHeader → ℕ → List Message → S → Outcome S
  unfolding save_if_due bsdiff_checkpoint_of finish_bsdiff
  relay_controls source sh target_index [] s =
      let (e, s') = save_if_due env (bsdiff_checkpoint_of sh target_index []) s in
      elim e [ some x ↦ (some x, [], s') | none ↦ (some unexpected_eof, [], s') ]
  relay_controls source sh target_index (m ∷ ms) s =
      let (e, s') = save_if_due env (bsdiff_checkpoint_of sh target_index (m ∷ ms)) s in
      elim e [
        | some x ↦ (some x, m ∷ ms, s')
        | none ↦ elim m [
          | control c ↦
              then_call (apply_control c s') ms (λ s. relay_controls source sh target_index ms s)
          | control_eof ↦ finish_bsdiff source sh ms s'
          | sync_op op ↦ (some bad_message, ms, s')
          | sync_header h ↦ (some bad_message, ms, s')
          | bsdiff_header i ↦ (some bad_message, ms, s')
        ]
      ]

  unfoldable pub resume_bsdiff :
      List ℕ → BsdiffCheckpoint W → SyncHeader → List Message → S → Outcome S
  unfolding relay_controls close_resumed
  resume_bsdiff source c sh ms s = then_call (open_old c.target_index s) ms (λ s.
      then_call (get_writer sh.file_index s) ms (λ s. close_resumed env (
        then_call (resume_writer (some c.writer_checkpoint) s) ms (λ s.
          then_call (new_context c.old_offset s) ms
            (λ s. relay_controls source sh c.target_index ms s)))))

  unfoldable pub start_bsdiff : List ℕ → SyncHeader → List Message → S → Outcome S
  unfolding relay_controls close_new
  start_bsdiff source sh [] s = (some unexpected_eof, [], s)
  start_bsdiff source sh (bsdiff_header target_index ∷ ms) s =
      then_call (open_old target_index s) ms (λ s. then_call (get_writer sh.file_index s) ms (λ s.
        close_new env (
          then_call (resume_writer none s) ms (λ s.
            then_call (new_context 0 s) ms (λ s. relay_controls source sh target_index ms s)))))
  start_bsdiff source sh (sync_op op ∷ ms) s = (some bad_message, ms, s)
  start_bsdiff source sh (sync_header h ∷ ms) s = (some bad_message, ms, s)
  start_bsdiff source sh (control c ∷ ms) s = (some bad_message, ms, s)
  start_bsdiff source sh (control_eof ∷ ms) s = (some bad_message, ms, s)
