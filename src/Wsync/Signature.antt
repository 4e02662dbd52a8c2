-- ===== src/Wsync/Signature.antt =====
-- `CreateSignature` of wsync/hashes.go over the scanner of splitfunc/splitfunc.go. The scanner hands
-- the split function what its buffer of one block holds, and `at_eof` where the reader has no more;
-- a reader that fails ends the scan in the same way, and its error is returned afterwards.
pub mod Blocks
pub mod Genuine
pub mod Finds
use wharf.Base.{
  ℕ, zero, suc, ◌+◌, Bool, true, false, Option, none, some, List, [], ◌∷◌, ◌++◌, length, take, drop,
  ltb, leb, ◌==◌, if◌then◌else◌,
}
use wharf.Wsync.Types.{BlockHash}
use wharf.Wsync.Rolling.{beta_hash}

-- What a split function returns: a token and how far it advances, a request for more, or io.EOF.
pub data Split : Type 0 where
  token : ℕ → List ℕ → Split
  more : Split
  eof : Split

-- `splitfunc.New`
pub split_func : ℕ → List ℕ → Bool → Split
split_func block_size bytes at_eof =
    if leb block_size (length bytes)
    then token block_size (take block_size bytes)
    else if at_eof
    then if ltb 0 (length bytes) then token (length bytes) bytes else eof
    else more

pub data SignError : Type 0 where
  read_failed write_failed cancelled stuck : SignError

-- What a call is given. `canceled` tells at each block whether the context is done.
pub record SignParams : Type 0 where
  pub block_size : ℕ
  pub unique_hash : List ℕ → List ℕ
  pub file_index : ℕ
  pub accepts : List BlockHash → BlockHash → Bool
  pub canceled : ℕ → Bool

-- `blockIndex`, `cancelCounter`, and what the writer has taken
pub record Signing : Type 0 where
  pub block_index : ℕ
  pub cancel_counter : ℕ
  pub hashes : List BlockHash

module _ (p : SignParams) where
  open p use {block_size, unique_hash, file_index, accepts, canceled}

  abbrev pub make_hash : ℕ → List ℕ → BlockHash
  make_hash index block = record {
    file_index = file_index;
    block_index = index;
    weak_hash = (beta_hash block).beta;
    short_size = if ltb (length block) block_size then length block else 0;
    strong_hash = unique_hash block;
  }

  pub hash_block : List ℕ → Signing → Option SignError × Signing
  hash_block block s =
      let hash = make_hash s.block_index block in
      if accepts s.hashes hash
      then (none, record s { block_index = s.block_index + 1; hashes = s.hashes ++ (hash ∷ []) })
      else (some write_failed, s)

  -- Every 129th block looks at the context.
  pub poll : Signing → Option SignError × Signing
  poll s =
      let n = s.cancel_counter + 1 in
      if ltb 128 n
      then if canceled s.block_index
        then (some cancelled, record s { cancel_counter = 0 })
        else (none, record s { cancel_counter = 0 })
      else (none, record s { cancel_counter = n })

  -- `for s.Scan()`; the list is what the scanner has not handed out.
  pub scan : ℕ → List ℕ → Signing → Option SignError × Signing
  scan zero rest s = (some stuck, s)
  scan (suc fuel) rest s =
      elim (split_func block_size (take block_size rest) (leb (length rest) block_size)) [
        | more ↦ (some stuck, s)
        | eof ↦ (none, s)
        | token n block ↦
            let (e, t) = hash_block block s in
            elim e [
              | some x ↦ (some x, t)
              | none ↦
                  let (e', u) = poll t in
                  elim e' [ some x ↦ (some x, u) | none ↦ scan fuel (drop n rest) u ]
            ]
      ]

  -- Behind the loop: the reader's error, and a hash for an empty file.
  pub finish : Bool → Signing → Option SignError × Signing
  finish broken s =
      if broken
      then (some read_failed, s)
      else if s.block_index == 0
      then hash_block [] s
      else (none, s)

  unfoldable pub create_signature : List ℕ → Bool → Option SignError × Signing
  unfolding scan finish poll hash_block split_func
  create_signature content broken =
      let (e, s) =
        scan (length content + 1) content
          (record { block_index = 0; cancel_counter = 0; hashes = [] }) in
      elim e [ some x ↦ (some x, s) | none ↦ finish broken s ]
