-- ===== src/Pwr/Safekeeper.antt =====
-- pwr/safekeeper.go: a pool whose readers check a block of a file against a signature before they
-- read from it. `load` opens and reads the signature and groups its hashes; the files of the inner
-- pool, its seeks and its reads are parameters.
pub mod Checked
mod Tests
use wharf.Base.{
  ℕ, ◌+◌, ◌*◌, ◌/◌, Bool, true, false, ◌&&◌, Option, none, some, List, [], ◌∷◌, take, drop, ◌==◌,
  if◌then◌else◌,
}
use wharf.Pwr.BlockMath.{block_size}
use wharf.Pwr.Validate.{HashInfo, BlockError, block_size_of, validate_as_error}

pub data SafeError : Type 0 where
  signature_failed seek_failed read_failed panicked : SafeError
  invalid : BlockError → SafeError

-- An entry of `validBlocks`: the file, the block, and what its validation returned
pub record CheckedBlock : Type 0 where
  pub file_index : ℕ
  pub block_index : ℕ
  pub error : Option SafeError

-- `safeKeeper`
pub record SafeKeeper : Type 0 where
  pub block_validator : Option HashInfo
  pub sig_error : Bool
  pub valid_blocks : List CheckedBlock

-- The inner pool: what its files hold, where they can seek to, and how many bytes a Read returns,
-- or that it fails.
pub record Inner : Type 0 where
  pub content : ℕ → List ℕ
  pub can_seek : ℕ → ℕ → Bool
  pub read : ℕ → ℕ → ℕ → Option ℕ

-- `safeKeeperReader` with its keeper and the world outside; `pos` is where the inner reader stands.
pub record Reader (W : Type 0) : Type 0 where
  pub keeper : SafeKeeper
  pub world : W
  pub file_index : ℕ
  pub offset : ℕ
  pub pos : ℕ

unfoldable pub find_block : ℕ → ℕ → List CheckedBlock → Option (Option SafeError)
find_block file block [] = none
find_block file block (c ∷ cs) =
    if c.file_index == file && c.block_index == block
    then some c.error
    else find_block file block cs

abbrev pub as_error : Option BlockError → Option SafeError
as_error none = none
as_error (some e) = some (invalid e)

module _ {W : Type 0} (unique_hash : List ℕ → List ℕ) (inner : Inner)
    (load : W → Option HashInfo × W) where
  open inner use {content, can_seek, read}

  -- `getBlockValidator`: the validator and the error are kept, so that there is one attempt.
  unfoldable pub get_block_validator : Reader W → Option HashInfo × Reader W
  get_block_validator r = elim r.keeper.block_validator [
    | some info ↦ (some info, r)
    | none ↦ elim r.keeper.sig_error [
      | true ↦ (none, r)
      | false ↦
          let (loaded, w) = load r.world in
          elim loaded [
            | none ↦ (none, record r { keeper = record r.keeper { sig_error = true }; world = w })
            | some info ↦ (
              some info,
              record r { keeper = record r.keeper { block_validator = some info }; world = w },
            )
          ]
    ]
  ]

  -- `Seek(savedOffset, io.SeekStart)` with its error ignored: the reader stays where it is, at
  -- `there`, if it can't.
  unfoldable pub restore : ℕ → Reader W → Reader W
  restore there r = record r { pos = if can_seek r.file_index r.offset then r.offset else there }

  abbrev pub keep : ℕ → Option SafeError → Reader W → Reader W
  keep block e r = record r {
    keeper = record r.keeper {
      valid_blocks =
          record { file_index = r.file_index; block_index = block; error = e }
          ∷ r.keeper.valid_blocks;
    };
  }

  -- The bytes of a block that a read of so many returns
  abbrev pub block_bytes : ℕ → ℕ → ℕ → List ℕ
  block_bytes file block n = take n (drop (block * block_size) (content file))

  unfoldable pub validate_read : HashInfo → ℕ → ℕ → Reader W → Option SafeError × Reader W
  unfolding restore validate_as_error
  validate_read info block n r =
      elim (validate_as_error unique_hash info r.file_index block
        (block_bytes r.file_index block n)) [
          | none ↦ (some panicked, r)
          | some e ↦ (as_error e, restore (block * block_size + n) (keep block (as_error e) r))
        ]

  -- `validateBlock` of a block that has not been checked
  unfoldable pub check_block : HashInfo → ℕ → Reader W → Option SafeError × Reader W
  unfolding validate_read restore block_size_of
  check_block info block r = elim (block_size_of unique_hash info r.file_index block) [
    | none ↦ (some panicked, r)
    | some size ↦ elim (can_seek r.file_index (block * block_size)) [
      | false ↦ (some seek_failed, restore r.pos r)
      | true ↦ elim (read r.file_index (block * block_size) size) [
        | none ↦ (some read_failed, restore (block * block_size) r)
        | some n ↦ validate_read info block n r
      ]
    ]
  ]

  unfoldable pub validate_block : Reader W → Option SafeError × Reader W
  unfolding find_block get_block_validator check_block
  validate_block r =
      let block = r.offset / block_size in
      elim (find_block r.file_index block r.keeper.valid_blocks) [
        | some e ↦ (e, r)
        | none ↦
            let (info, r') = get_block_validator r in
            elim info [ none ↦ (some signature_failed, r') | some i ↦ check_block i block r' ]
      ]

  -- `Seek` from the start
  unfoldable pub seek : ℕ → Reader W → Bool × Reader W
  seek offset r =
      if can_seek r.file_index offset
      then (true, record r { offset = offset; pos = offset })
      else (false, record r { offset = 0 })

  -- `Read` of so many bytes, behind the validation
  unfoldable pub read_inner : ℕ → Reader W → Option SafeError × List ℕ × Reader W
  read_inner len r = elim (read r.file_index r.pos len) [
    | none ↦ (some read_failed, [], r)
    | some n ↦ (
      none,
      take n (drop r.pos (content r.file_index)),
      record r { offset = r.offset + n; pos = r.pos + n },
    )
  ]

  unfoldable pub read_checked : ℕ → Reader W → Option SafeError × List ℕ × Reader W
  unfolding validate_block read_inner
  read_checked len r =
      let (e, r') = validate_block r in
      elim e [ some x ↦ (some x, [], r') | none ↦ read_inner len r' ]
