-- ===== src/Wsync/Apply.antt =====
-- `ApplyPatchFull` and `ApplySingleFull` of wsync/algo.go. The pool (package lake) and the output
-- are interfaces: a file of the pool has its bytes and the ways in which reading it may fail, and
-- the output takes bytes up to some room. The copy buffer's size does not change what is copied.
pub mod Healthy
pub mod Padding
use wharf.Base.{
  ℕ, ◌+◌, ◌-◌, ◌*◌, ◌%◌, Bool, true, false, ◌&&◌, Option, none, some, List, [], ◌∷◌, ◌++◌, length,
  take, drop, replicate, ltb, leb, ◌==◌, if◌then◌else◌,
}
use wharf.Wsync.Types.{Operation, op_block_range, op_data}

-- An opened file: its bytes, whether reading past them is an error, and where it can seek to.
pub record Target : Type 0 where
  pub content : List ℕ
  pub broken : Bool
  pub can_seek : ℕ → Bool

-- `lake.Pool`
pub record Pool : Type 0 where
  pub get_size : ℕ → ℕ
  pub get_read_seeker : ℕ → Option Target

pub record Output : Type 0 where
  pub written : List ℕ
  pub room : ℕ

pub data ApplyError : Type 0 where
  open_failed seek_failed copy_failed write_failed : ApplyError

pub record Copied : Type 0 where
  pub count : ℕ
  pub failed : Bool
  pub output : Output

-- `io.CopyBuffer` of bytes after which the reader ends or fails.
unfoldable pub copy : List ℕ → Bool → Output → Copied
copy bytes read_fails out =
    if leb (length bytes) out.room
    then record {
      count = length bytes;
      failed = read_fails;
      output = record { written = out.written ++ bytes; room = out.room - length bytes };
    }
    else record {
      count = out.room;
      failed = true;
      output = record { written = out.written ++ take out.room bytes; room = 0 };
    }

-- `io.LimitReader(&devNullReader{}, n)`
pub copy_zeros : ℕ → Output → Output
unfolding copy
copy_zeros n out = (copy (replicate n 0) false out).output

-- `io.LimitReader(target, n)` behind a seek: it fails if the file does before `n` bytes are read.
pub copy_target : Target → ℕ → ℕ → Output → Copied
unfolding copy
copy_target target offset n out =
    let bytes = take n (drop offset target.content) in
    copy bytes (target.broken && ltb (length bytes) n) out

-- `fixedSize + lastSize`. With a span of 0 this is not positive in the code, and a limit that is
-- not positive copies nothing, as 0 does here.
unfoldable pub op_size : ℕ → ℕ → ℕ → ℕ → ℕ
op_size block_size file_size block span =
    let last_size =
      if ltb file_size (block_size * (block + span)) then file_size % block_size else block_size in
    span * block_size + last_size - block_size

module _ (block_size : ℕ) (pool : Pool) (fail_fast : Bool) where
  -- What each of the three failures does.
  abbrev or_zeros : ApplyError → ℕ → Output → Option ApplyError × Output
  or_zeros e n out = if fail_fast then (some e, out) else (none, copy_zeros n out)

  copied_or_zeros : ℕ → Copied → Option ApplyError × Output
  copied_or_zeros size c =
      if c.failed then or_zeros copy_failed (size - c.count) c.output else (none, c.output)

  read_range : ℕ → ℕ → Option Target → Output → Option ApplyError × Output
  read_range size offset none out = or_zeros open_failed size out
  read_range size offset (some target) out =
      if target.can_seek offset
      then copied_or_zeros size (copy_target target offset size out)
      else or_zeros seek_failed size out

  unfoldable pub apply_single_full : Operation → Output → Option ApplyError × Output
  unfolding read_range copied_or_zeros op_size copy_target copy_zeros copy
  apply_single_full (op_block_range file block span) out =
      read_range (op_size block_size (pool.get_size file) block span) (block_size * block)
        (pool.get_read_seeker file) out
  apply_single_full (op_data bytes) out =
      let c = copy bytes false out in (if c.failed then some write_failed else none, c.output)

  unfoldable pub apply_patch_full : List Operation → Output → Option ApplyError × Output
  unfolding apply_single_full
  apply_patch_full [] out = (none, out)
  apply_patch_full (op ∷ ops) out =
      let (e, out') = apply_single_full op out in
      elim e [ none ↦ apply_patch_full ops out' | some x ↦ (some x, out') ]

-- `ApplyPatch` fails fast.
unfoldable pub apply_patch : ℕ → Pool → List Operation → Output → Option ApplyError × Output
unfolding apply_patch_full
apply_patch block_size pool = apply_patch_full block_size pool true
