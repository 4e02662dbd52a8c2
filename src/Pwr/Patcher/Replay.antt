-- ===== src/Pwr/Patcher/Replay.antt =====
-- What `savingPatcher.Resume` (pwr/patcher/patcher.go) does with a patch of rsync series, as the
-- plan of calls that the patch stands for.
pub mod Ops
pub mod Whole
use wharf.Base.{
  ℕ, suc, ◌+◌, Bool, true, false, Option, none, some, List, [], ◌∷◌, ◌≡◌, if◌then◌else◌,
}
use wharf.Wsync.Types.{Operation, op_block_range, op_data}
use wharf.Pwr.Patcher.{
  SyncOp, block_range, data_op, hey_you_did_it, rsync, Message, sync_header, sync_op, call_failed,
  Services, Outcome, is_full_file_op,
}

-- What `makeOpsWriter` (pwr/diff.go) writes for an operation
abbrev pub sync_op_of : Operation → SyncOp
sync_op_of (op_block_range file block span) = block_range file block span
sync_op_of (op_data bytes) = data_op bytes

-- The operations of a file, with the end marker, before what follows
abbrev pub print_ops : List Operation → List Message → List Message
print_ops [] rest = sync_op hey_you_did_it ∷ rest
print_ops (o ∷ os) rest = sync_op (sync_op_of o) ∷ print_ops os rest

-- A file's first operation, and the others
abbrev pub FileOps : Type 0
FileOps = Operation × List Operation

abbrev pub print_file : ℕ → FileOps → List Message → List Message
print_file i f rest =
    sync_header (record { file_index = i; series = rsync }) ∷ print_ops (f.0 ∷ f.1) rest

abbrev pub print_files : ℕ → List FileOps → List Message
print_files i [] = []
print_files i (f ∷ fs) = print_file i f (print_files (suc i) fs)

-- A plan goes on where a call went well.
abbrev pub next : {S : Type 0} → Bool × S → (S → Bool × S) → Bool × S
next (true, s) q = q s
next (false, s) q = (false, s)

-- The outcome is the plan's: the same state, and the messages behind the file if it went well, or
-- the error of a call.
abbrev pub Plays : {S : Type 0} → Outcome S → Bool × S → List Message → Type 0
Plays o (true, s) rest = o ≡ (none, rest, s)
Plays o (false, s) rest = (o.0 ≡ some call_failed) × (o.2 ≡ s)

module _ {B W S : Type 0} (env : Services B W S) where
  abbrev pub apply_all : List Operation → S → Bool × S
  apply_all [] s = (true, s)
  apply_all (o ∷ os) s = next (env.apply_single o s) (apply_all os)

  -- The writer is closed whatever happens, and what its `Close` returns is lost.
  abbrev pub closing : Bool × S → Bool × S
  closing r = (r.0, (env.close_writer r.1).1)

  abbrev pub write_file : ℕ → FileOps → S → Bool × S
  write_file i f s = next (env.get_writer i s) (λ s.
      next (env.resume_writer none s) (λ s. closing (next (apply_all (f.0 ∷ f.1) s) env.finalize)))

  abbrev pub transpose_first : ℕ → Operation → S → Bool × S
  transpose_first i (op_block_range file block span) s = env.transpose i file s
  transpose_first i (op_data bytes) s = (true, s)

  module _ (target source : List ℕ) (skipped : ℕ → Bool) where
    abbrev pub is_full : ℕ → Operation → Bool
    is_full i o = elim (is_full_file_op target source i (sync_op_of o)) [
      | none ↦ false
      | some b ↦ b
    ]

    -- One file: it is the whole of an old file, or it is written.
    abbrev pub plan_file : ℕ → FileOps → S → Bool × S
    plan_file i f s = if is_full i f.0 then transpose_first i f.0 s else write_file i f s

    abbrev pub plan_files : ℕ → List FileOps → S → Bool × S
    plan_files i [] s = (true, s)
    plan_files i (f ∷ fs) s = elim (skipped i) [
      | true ↦ plan_files (suc i) fs s
      | false ↦ next (plan_file i f s) (plan_files (suc i) fs)
    ]

    abbrev pub unskipped : ℕ → List FileOps → ℕ
    unskipped i [] = 0
    unskipped i (f ∷ fs) = elim (skipped i) [
      | true ↦ unskipped (suc i) fs
      | false ↦ suc (unskipped (suc i) fs)
    ]

    -- The first operations are of old files that there are.
    abbrev pub Known : ℕ → List FileOps → Type 0
    Known i [] = Unit
    Known i (f ∷ fs) =
        ((b : Bool) × (is_full_file_op target source i (sync_op_of f.0) ≡ some b))
        × Known (suc i) fs
