-- ===== src/Pwr/Patcher.antt =====
-- pwr/patcher: `savingPatcher.Resume` (patcher.go) with `processRsync` (patcher_rsync.go) and
-- `processBsdiff` (patcher_bsdiff.go). The messages of the patch that are left are a list. What the
-- patcher calls, the bowl, its writers, the pool of old files, the patch contexts and the consumer
-- of the checkpoints, is a record of functions on a state `S`.
pub mod Checkpoints
pub mod Rsync
pub mod Bsdiff
pub mod Resume
pub mod FullFile
pub mod Replay
mod Tests
use wharf.Base.{
  if◌then◌else◌, ◌%◌, ◌^◌, ℕ, zero, suc, ◌+◌, Bool, true, false, ◌&&◌, Option, none, some, List, [],
  ◌∷◌, get_elem?, ◌⊎◌, inl, inr, ◌==◌,
}
use wharf.Wsync.Types.{Operation, op_block_range, op_data}
use wharf.Pwr.BlockMath.{compute_num_blocks}
use wharf.Bsdiff.{Control}

pub data SyncOp : Type 0 where
  block_range : ℕ → ℕ → ℕ → SyncOp
  data_op : List ℕ → SyncOp
  hey_you_did_it : SyncOp
  unknown_op : SyncOp

-- `SyncHeader_Type`
pub data Series : Type 0 where
  rsync bsdiff unknown_series : Series

pub record SyncHeader : Type 0 where
  pub file_index : ℕ
  pub series : Series

pub data Message : Type 0 where
  sync_header : SyncHeader → Message
  sync_op : SyncOp → Message
  bsdiff_header : ℕ → Message
  -- `eof` of a control is a message of its own here.
  control : Control → Message
  control_eof : Message

-- `stopped` is `ErrStop`, `panicked` an index out of range, `call_failed` the error of a call.
pub data PatchError : Type 0 where
  unexpected_eof bad_message wrong_file_index unknown_kind unknown_op_type no_sentinel wrong_size
        stopped panicked call_failed :
      PatchError

pub data FileKind : Type 0 where
  no_kind kind_rsync kind_bsdiff : FileKind

pub record BsdiffCheckpoint (W : Type 0) : Type 0 where
  pub writer_checkpoint : W
  pub old_offset : ℕ
  pub target_index : ℕ

-- `Checkpoint`, over the checkpoints `B` of a bowl and `W` of a writer; the checkpoint of the
-- messages is what is left of them.
pub record Checkpoint (B W : Type 0) : Type 0 where
  pub file_index : ℕ
  pub file_kind : FileKind
  pub sync_header : Option SyncHeader
  pub message_checkpoint : List Message
  pub bowl_checkpoint : Option B
  pub rsync_checkpoint : Option W
  pub bsdiff_checkpoint : Option (BsdiffCheckpoint W)

pub data AfterSave : Type 0 where
  save_failed continue stop : AfterSave

-- A call that may fail
abbrev pub Call : Type 0 → Type 0
Call S = S → Bool × S

pub record Services (B W S : Type 0) : Type 0 where
  pub resume_bowl : Option B → Call S
  pub save_bowl : S → Option B × S
  pub get_writer : ℕ → Call S
  pub resume_writer : Option W → Call S
  pub save_writer : S → Option W × S
  pub tell : S → ℕ
  pub finalize : Call S
  pub close_writer : Call S
  -- The source index, and the target index
  pub transpose : ℕ → ℕ → Call S
  pub apply_single : Operation → Call S
  pub open_old : ℕ → Call S
  pub new_context : ℕ → Call S
  pub apply_control : Control → Call S
  pub old_offset : S → ℕ
  pub should_save : Call S
  -- `WantSave` and `PopCheckpoint`: whether there is a checkpoint of the messages
  pub pop_checkpoint : Call S
  pub save : Checkpoint B W → S → AfterSave × S

-- An error, the messages left, and the state
abbrev pub Outcome : Type 0 → Type 0
Outcome S = Option PatchError × List Message × S

-- `makeWop`
unfoldable pub make_wop : SyncOp → Option Operation
make_wop (block_range file block span) = some (op_block_range file block span)
make_wop (data_op bytes) = some (op_data bytes)
make_wop hey_you_did_it = none
make_wop unknown_op = none

-- `isFullFileOp`, over the sizes of the files of both containers; `none` is a panic.
unfoldable pub is_full_file_op : List ℕ → List ℕ → ℕ → SyncOp → Option Bool
unfolding compute_num_blocks
is_full_file_op target source i (block_range file block span) = elim (block == 0) [
  | false ↦ some false
  | true ↦ elim (get_elem? target file) [
    | none ↦ none
    | some target_size ↦ elim (get_elem? source i) [
      | none ↦ none
      | some output_size ↦
          some (target_size == output_size && span == compute_num_blocks output_size)
    ]
  ]
]
is_full_file_op target source i (data_op bytes) = some false
is_full_file_op target source i hey_you_did_it = some false
is_full_file_op target source i unknown_op = some false

-- The loops that read up to the end marker, in `skipFile` and behind a full-file operation. They
-- read every message as a `SyncOp`, and of a message of another type protobuf keeps what fits: the
-- type of a `SyncHeader` is none of the marker's, a `BsdiffHeader` has its target's index where a
-- `SyncOp` has its type, and a `Control` has bytes there, which are set aside.
unfoldable pub read_until_end_marker : {S : Type 0} → List Message → S → Outcome S
read_until_end_marker [] s = (some unexpected_eof, [], s)
read_until_end_marker (sync_op hey_you_did_it ∷ ms) s = (none, ms, s)
read_until_end_marker (sync_op (block_range file block span) ∷ ms) s = read_until_end_marker ms s
read_until_end_marker (sync_op (data_op bytes) ∷ ms) s = read_until_end_marker ms s
read_until_end_marker (sync_op unknown_op ∷ ms) s = read_until_end_marker ms s
read_until_end_marker (sync_header sh ∷ ms) s = read_until_end_marker ms s
read_until_end_marker (bsdiff_header i ∷ ms) s =
    let rest = read_until_end_marker ms s in if i % 2 ^ 32 == 2049 then (none, ms, s) else rest
read_until_end_marker (control c ∷ ms) s = read_until_end_marker ms s
read_until_end_marker (control_eof ∷ ms) s = read_until_end_marker ms s

-- A call's failure ends the work.
abbrev pub then_call : {S : Type 0} → Bool × S → List Message → (S → Outcome S) → Outcome S
then_call (true, s) ms k = k s
then_call (false, s) ms k = (some call_failed, ms, s)
