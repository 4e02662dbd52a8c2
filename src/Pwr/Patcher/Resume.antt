-- ===== src/Pwr/Patcher/Resume.antt =====
-- `savingPatcher.Resume` of pwr/patcher/patcher.go
use wharf.Base.{
  ℕ, zero, suc, ◌+◌, Bool, true, false, Option, none, some, List, [], ◌∷◌, ◌==◌, if◌then◌else◌, not,
  length, ◌-◌, ◌⊎◌, inl, inr,
}
use wharf.Pwr.Patcher.{
  rsync, bsdiff, unknown_series, SyncHeader, Message, sync_header, sync_op, bsdiff_header, control,
  control_eof, PatchError, unexpected_eof, bad_message, wrong_file_index, unknown_kind, call_failed,
  no_kind, kind_rsync, kind_bsdiff, Checkpoint, Services, Outcome, read_until_end_marker,
}
use wharf.Pwr.Patcher.Rsync.{start_rsync, resume_rsync}
use wharf.Pwr.Patcher.Bsdiff.{start_bsdiff, resume_bsdiff}

module _ {B W S : Type 0} (env : Services B W S) (target source : List ℕ)
    (whitelist : Option (ℕ → Bool)) where
  open env use {resume_bowl}

  -- `processRsync` and `processBsdiff`, as the checkpoint has it
  unfoldable pub process_file : Checkpoint B W → SyncHeader → List Message → S → Outcome S
  unfolding start_rsync resume_rsync start_bsdiff resume_bsdiff
  process_file c sh ms s = elim c.file_kind [
    | no_kind ↦ (some unknown_kind, ms, s)
    | kind_rsync ↦ elim c.rsync_checkpoint [
      | none ↦ start_rsync env target source sh ms s
      | some w ↦ resume_rsync env w sh ms s
    ]
    | kind_bsdiff ↦ elim c.bsdiff_checkpoint [
      | none ↦ start_bsdiff env source sh ms s
      | some b ↦ resume_bsdiff env source b sh ms s
    ]
  ]

  -- `skip`
  abbrev pub is_skipped : ℕ → Bool
  is_skipped i = elim whitelist [ none ↦ false | some listed ↦ not (listed i) ]

  -- The header of a file, and the checkpoint with its kind
  unfoldable pub read_header :
      Checkpoint B W → List Message → (PatchError ⊎ (Checkpoint B W × SyncHeader × List Message))
  read_header c [] = inl unexpected_eof
  read_header c (sync_header sh ∷ ms) = elim (sh.file_index == c.file_index) [
    | false ↦ inl wrong_file_index
    | true ↦ elim sh.series [
      | rsync ↦ inr (record c { file_kind = kind_rsync }, sh, ms)
      | bsdiff ↦ inr (record c { file_kind = kind_bsdiff }, sh, ms)
      | unknown_series ↦ inl unknown_kind
    ]
  ]
  read_header c (sync_op op ∷ ms) = inl bad_message
  read_header c (bsdiff_header i ∷ ms) = inl bad_message
  read_header c (control x ∷ ms) = inl bad_message
  read_header c (control_eof ∷ ms) = inl bad_message

  -- `c.SyncHeader`, or the next message
  unfoldable pub header_of :
      Checkpoint B W → List Message → (PatchError ⊎ (Checkpoint B W × SyncHeader × List Message))
  unfolding read_header
  header_of c ms = elim c.sync_header [ some sh ↦ inr (c, sh, ms) | none ↦ read_header c ms ]

  -- The checkpoint reset behind a file
  unfoldable pub next_file : Checkpoint B W → Checkpoint B W
  next_file c = record c {
    file_index = suc c.file_index;
    sync_header = none;
    message_checkpoint = [];
    rsync_checkpoint = none;
    bsdiff_checkpoint = none;
  }

  -- The body of the loop, and what is to be added to `touchedFiles`
  unfoldable pub patch_file : Checkpoint B W → SyncHeader → List Message → S → Outcome S × ℕ
  unfolding process_file read_until_end_marker
  patch_file c sh ms s =
      if is_skipped sh.file_index
      then (read_until_end_marker ms s, 0)
      else (let r = process_file c sh ms s in (r, elim r.0 [ none ↦ 1 | some e ↦ 0 ]))

  -- The loop over the files that are left; `touched` is `touchedFiles`.
  unfoldable pub patch_files : ℕ → Checkpoint B W → List Message → S → ℕ → Outcome S × ℕ
  unfolding header_of patch_file next_file
  patch_files zero c ms s touched = ((none, ms, s), touched)
  patch_files (suc left) c ms s touched = elim (header_of c ms) [
    | inl e ↦ ((some e, ms, s), touched)
    | inr h ↦
        let r = patch_file h.0 h.1 h.2 s in
        elim r.0.0 [
          | some e ↦ ((some e, r.0.1, r.0.2), touched + r.1)
          | none ↦ patch_files left (next_file h.0) r.0.1 r.0.2 (touched + r.1)
        ]
  ]

  abbrev pub first_checkpoint : Checkpoint B W
  first_checkpoint = record {
    file_index = 0;
    file_kind = no_kind;
    sync_header = none;
    message_checkpoint = [];
    bowl_checkpoint = none;
    rsync_checkpoint = none;
    bsdiff_checkpoint = none;
  }

  -- `Resume`, where the messages of the patch are those behind both containers.
  unfoldable pub resume : Option (Checkpoint B W) → List Message → S → Outcome S × ℕ
  unfolding patch_files
  resume none ms s =
      let (ok, s') = resume_bowl none s in
      if ok
      then patch_files (length source) first_checkpoint ms s' 0
      else ((some call_failed, ms, s'), 0)
  resume (some c) ms s =
      let (ok, s') = resume_bowl c.bowl_checkpoint s in
      if ok
      then patch_files (length source - c.file_index) c c.message_checkpoint s' 0
      else ((some call_failed, c.message_checkpoint, s'), 0)
