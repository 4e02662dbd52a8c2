-- ===== src/Pwr/Patcher/Rsync.antt =====
-- `processRsync` of pwr/patcher/patcher_rsync.go
use wharf.Base.{ℕ, none, some, List, [], ◌∷◌, if◌then◌else◌}
use wharf.Pwr.Patcher.{
  SyncOp, block_range, data_op, hey_you_did_it, unknown_op, SyncHeader, Message, sync_header,
  sync_op, bsdiff_header, control, control_eof, unexpected_eof, bad_message, unknown_op_type,
  panicked, kind_rsync, Checkpoint, Services, Outcome, make_wop, is_full_file_op,
  read_until_end_marker, then_call,
}
use wharf.Pwr.Patcher.Checkpoints.{save_if_due, close_resumed, close_new, finish_file}

module _ {B W S : Type 0} (env : Services B W S) where
  open env use {
    resume_bowl, save_bowl, get_writer, resume_writer, save_writer, tell, finalize, close_writer,
    transpose, apply_single, open_old, new_context, apply_control, old_offset, should_save,
    pop_checkpoint, save,
  }

  pub rsync_checkpoint_of : SyncHeader → List Message → B → W → S → Checkpoint B W
  rsync_checkpoint_of sh ms b w s = record {
    file_index = sh.file_index;
    file_kind = kind_rsync;
    sync_header = some sh;
    message_checkpoint = ms;
    bowl_checkpoint = some b;
    rsync_checkpoint = some w;
    bsdiff_checkpoint = none;
  }

  unfoldable pub apply_op : SyncOp → List Message → S → (S → Outcome S) → Outcome S
  unfolding make_wop
  apply_op op ms s k = elim (make_wop op) [
    | none ↦ (some unknown_op_type, ms, s)
    | some wop ↦ then_call (apply_single wop s) ms k
  ]

  -- The loop of `processRsync`
  unfoldable pub relay_ops : SyncHeader → List Message → S → Outcome S
  unfolding save_if_due rsync_checkpoint_of apply_op
  relay_ops sh [] s =
      let (e, s') = save_if_due env (rsync_checkpoint_of sh []) s in
      elim e [ some x ↦ (some x, [], s') | none ↦ (some unexpected_eof, [], s') ]
  relay_ops sh (m ∷ ms) s =
      let (e, s') = save_if_due env (rsync_checkpoint_of sh (m ∷ ms)) s in
      elim e [
        | some x ↦ (some x, m ∷ ms, s')
        | none ↦ elim m [
          | sync_op op ↦ elim op [
            | hey_you_did_it ↦ finish_file env ms s'
            | block_range file block span ↦
                apply_op (block_range file block span) ms s' (λ s. relay_ops sh ms s)
            | data_op bytes ↦ apply_op (data_op bytes) ms s' (λ s. relay_ops sh ms s)
            | unknown_op ↦ apply_op unknown_op ms s' (λ s. relay_ops sh ms s)
          ]
          | sync_header h ↦ (some bad_message, ms, s')
          | bsdiff_header i ↦ (some bad_message, ms, s')
          | control c ↦ (some bad_message, ms, s')
          | control_eof ↦ (some bad_message, ms, s')
        ]
      ]

  -- `processRsync` from a checkpoint
  unfoldable pub resume_rsync : W → SyncHeader → List Message → S → Outcome S
  unfolding relay_ops close_resumed
  resume_rsync w sh ms s =
      then_call (get_writer sh.file_index s) ms
        (λ s. then_call (resume_writer (some w) s) ms (λ s. close_resumed env (relay_ops sh ms s)))

  -- `processRsync` of a first operation that is not the whole of an old file
  unfoldable pub patch_rsync : SyncHeader → SyncOp → List Message → S → Outcome S
  unfolding relay_ops close_new apply_op
  patch_rsync sh op ms s = then_call (get_writer sh.file_index s) ms (λ s.
      then_call (resume_writer none s) ms
        (λ s. close_new env (apply_op op ms s (λ s. relay_ops sh ms s))))

  unfoldable pub transpose_file : SyncHeader → SyncOp → List Message → S → Outcome S
  unfolding read_until_end_marker
  transpose_file sh (block_range file block span) ms s =
      then_call (transpose sh.file_index file s) ms (λ s. read_until_end_marker ms s)
  transpose_file sh (data_op bytes) ms s = (some panicked, ms, s)
  transpose_file sh hey_you_did_it ms s = (some panicked, ms, s)
  transpose_file sh unknown_op ms s = (some panicked, ms, s)

  module _ (target source : List ℕ) where
    -- `processRsync` from the beginning
    unfoldable pub start_rsync : SyncHeader → List Message → S → Outcome S
    unfolding is_full_file_op patch_rsync transpose_file
    start_rsync sh [] s = (some unexpected_eof, [], s)
    start_rsync sh (sync_op op ∷ ms) s = elim (is_full_file_op target source sh.file_index op) [
      | none ↦ (some panicked, ms, s)
      | some full ↦ if full then transpose_file sh op ms s else patch_rsync sh op ms s
    ]
    start_rsync sh (sync_header h ∷ ms) s = (some bad_message, ms, s)
    start_rsync sh (bsdiff_header i ∷ ms) s = (some bad_message, ms, s)
    start_rsync sh (control c ∷ ms) s = (some bad_message, ms, s)
    start_rsync sh (control_eof ∷ ms) s = (some bad_message, ms, s)
