-- ===== src/Pwr/Genie.antt =====
-- pwr/genie: which parts of the old files, and how much fresh data, each big block of a new file is
-- composed of. The patch is the messages of each file: the index in its SyncHeader, and its
-- operations, which end where reading fails.
pub mod Places
pub mod Compose
pub mod Copied
mod Tests
use wharf.Base.{
  ℕ, zero, suc, ◌+◌, ◌-◌, ◌*◌, Bool, true, false, ◌&&◌, Option, none, some, List, [], ◌∷◌, ◌++◌,
  length, ltb, ◌==◌, if◌then◌else◌,
}
use wharf.Pwr.BlockMath.{block_size}

-- `SyncOp`
pub data SyncOp : Type 0 where
  block_range : ℕ → ℕ → ℕ → SyncOp
  fresh_data : List ℕ → SyncOp
  hey_you_did_it : SyncOp

-- `BlockOrigin` (file, offset and size) and `FreshOrigin`
pub data Origin : Type 0 where
  block_origin : ℕ → ℕ → ℕ → Origin
  fresh_origin : ℕ → Origin

abbrev pub get_size : Origin → ℕ
get_size (block_origin file offset size) = size
get_size (fresh_origin size) = size

pub record Composition : Type 0 where
  pub file_index : ℕ
  pub block_index : ℕ
  pub origins : List Origin
  pub size : ℕ

-- `Composition.Append`
abbrev pub append : Origin → Composition → Composition
append o comp = record comp { origins = comp.origins ++ (o ∷ []); size = comp.size + get_size o }

-- The first `n` bytes of an origin, and what is left of it.
abbrev pub first_part : ℕ → Origin → Origin
first_part n (block_origin file offset size) = block_origin file offset n
first_part n (fresh_origin size) = fresh_origin n

abbrev pub rest_part : ℕ → Origin → Origin
rest_part n (block_origin file offset size) = block_origin file (offset + n) (size - n)
rest_part n (fresh_origin size) = fresh_origin (size - n)

-- `comp`, and what the listener was given
pub record Analysis : Type 0 where
  pub comp : Composition
  pub listed : List Composition

-- `onComp(comp)`, and a new composition for the next block
abbrev pub next_block : Analysis → Analysis
next_block a = record {
  comp = record {
    file_index = a.comp.file_index;
    block_index = a.comp.block_index + 1;
    origins = [];
    size = 0;
  };
  listed = a.listed ++ (a.comp ∷ []);
}

abbrev pub put : Origin → Analysis → Analysis
put o a = record a { comp = append o a.comp }

-- `stuck` is no Go value: the loop of the model ran out of fuel.
pub data GenieError : Type 0 where
  read_failed malformed stuck : GenieError

pub data Result : Type 0 where
  failed : GenieError → List Composition → Result
  analyzed : Analysis → Result

module _ (big_block_size : ℕ) where
  -- `for comp.Size+bo.Size > bigBlockSize`, and the same for a fresh origin, with what is behind it.
  pub split : ℕ → Origin → Analysis → Result
  split zero o a = failed stuck a.listed
  split (suc fuel) o a = elim (ltb big_block_size (a.comp.size + get_size o)) [
    | false ↦ analyzed (if ltb 0 (get_size o) then put o a else a)
    | true ↦
        let truncated_size = big_block_size - a.comp.size in
        elim (ltb 0 truncated_size) [
          | true ↦
              split fuel (rest_part truncated_size o)
                (next_block (put (first_part truncated_size o) a))
          | false ↦ split fuel o (next_block a)
        ]
  ]

  abbrev pub split_all : Origin → Analysis → Result
  split_all o = split (2 * get_size o + 2) o

  -- `analyzeFile`
  pub analyze : ℕ → List SyncOp → Analysis → Result
  unfolding split
  analyze file_size [] a = failed read_failed a.listed
  analyze file_size (block_range file block span ∷ ops) a =
      elim (split_all (block_origin file (block * block_size) (span * block_size)) a) [
        | failed e listed ↦ failed e listed
        | analyzed b ↦ analyze file_size ops b
      ]
  analyze file_size (fresh_data d ∷ ops) a = elim (split_all (fresh_origin (length d)) a) [
    | failed e listed ↦ failed e listed
    | analyzed b ↦ analyze file_size ops b
  ]
  analyze file_size (hey_you_did_it ∷ ops) a = analyzed (
      if ltb 0 a.comp.size && ltb 0 file_size
      then record a { listed = a.listed ++ (a.comp ∷ []) }
      else a)

  abbrev pub start : ℕ → List Composition → Analysis
  start file_index listed = record {
    comp = record { file_index = file_index; block_index = 0; origins = []; size = 0 };
    listed = listed;
  }

  unfoldable pub analyze_file : ℕ → ℕ → List SyncOp → List Composition → Result
  unfolding analyze
  analyze_file file_index file_size ops listed = analyze file_size ops (start file_index listed)

  -- `ParseContents` from the file `file_index` on; the sizes are those of the files.
  pub parse_files :
      ℕ → List ℕ → List (ℕ × List SyncOp) → List Composition → Option GenieError × List Composition
  unfolding analyze_file
  parse_files file_index [] patch listed = (none, listed)
  parse_files file_index (size ∷ sizes) [] listed = (some read_failed, listed)
  parse_files file_index (size ∷ sizes) ((header, ops) ∷ patch) listed =
      if header == file_index
      then elim (analyze_file file_index size ops listed) [
        | failed e shown ↦ (some e, shown)
        | analyzed a ↦ parse_files (file_index + 1) sizes patch a.listed
      ]
      else (some malformed, listed)

  unfoldable pub parse_contents :
      List ℕ → List (ℕ × List SyncOp) → Option GenieError × List Composition
  unfolding parse_files
  parse_contents sizes patch = parse_files 0 sizes patch []
