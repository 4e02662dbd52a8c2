-- ===== src/Pwr/Validate.antt =====
-- pwr/hashinfo.go and pwr/blockvalidator.go: the hashes of a signature grouped by file, and the
-- check of one block against them. `none` is a panic of the Go code, an index out of range.
pub mod Groups
pub mod Blocks
mod Tests
use wharf.Base.{
  ℕ, ◌+◌, ◌*◌, Bool, true, false, ◌&&◌, Option, none, some, List, [], ◌∷◌, ◌++◌, length, get_elem?,
  slice, ltb, leb, ◌==◌, bytes_equal, if◌then◌else◌,
}
use wharf.Wsync.Types.{BlockHash}
use wharf.Wsync.Rolling.{beta_hash}
use wharf.Pwr.BlockMath.{block_size, compute_num_blocks, compute_block_size}
use wharf.Pwr.Wounds.{Wound, WoundKind, file, closed_file}

-- `tlc.File`
pub record File : Type 0 where
  pub path : List ℕ
  pub size : ℕ

-- `SignatureInfo`: the container's files, the hashes, and what the memory of the slice holds behind
-- them, up to its capacity.
pub record SignatureInfo : Type 0 where
  pub files : List File
  pub hashes : List BlockHash
  pub spare : List BlockHash

-- `map[string]int64` and `HashGroups`, the newest entry first
pub find_path : List (List ℕ × ℕ) → List ℕ → ℕ
find_path [] path = 0
find_path ((p, i) ∷ m) path = if bytes_equal p path then i else find_path m path

unfoldable pub find_group : List (ℕ × List BlockHash) → ℕ → List BlockHash
find_group [] index = []
find_group ((i, hashes) ∷ m) index = if i == index then hashes else find_group m index

pub path_to_file_index : List File → ℕ → List (List ℕ × ℕ) → List (List ℕ × ℕ)
path_to_file_index [] index m = m
path_to_file_index (f ∷ fs) index m = path_to_file_index fs (index + 1) ((f.path, index) ∷ m)

pub data HashInfoError : Type 0 where
  wrong_count panicked : HashInfoError

pub record HashInfo : Type 0 where
  pub files : List File
  pub groups : List (ℕ × List BlockHash)

pub data Outcome : Type 0 where
  failed : HashInfoError → Outcome
  grouped : HashInfo → Outcome

module _ (sig : SignatureInfo) where
  -- The second loop, and what is behind it.
  pub group_files : List (List ℕ × ℕ) → List File → ℕ → List (ℕ × List BlockHash) → Outcome
  group_files m [] hash_index groups =
      if hash_index == length sig.hashes
      then grouped (record { files = sig.files; groups = groups })
      else failed wrong_count
  group_files m (f ∷ fs) hash_index groups = elim (f.size == 0) [
    | true ↦ group_files m fs (hash_index + 1) groups
    | false ↦
        let end = hash_index + compute_num_blocks f.size in
        elim (ltb (length sig.hashes + length sig.spare) end) [
          | true ↦ failed panicked
          | false ↦
              group_files m fs end
                ((find_path m f.path, slice (sig.hashes ++ sig.spare) hash_index end) ∷ groups)
        ]
  ]

  unfoldable pub compute_hash_info : Outcome
  unfolding group_files path_to_file_index find_path slice compute_num_blocks bytes_equal
  compute_hash_info = group_files (path_to_file_index sig.files 0 []) sig.files 0 []

abbrev pub block_wound : ℕ → ℕ → WoundKind → ℕ → Wound
block_wound file_index block_index kind size = record {
  kind = kind;
  index = file_index;
  start = block_index * block_size;
  end = block_index * block_size + size;
}

pub data BlockError : Type 0 where
  too_large weak_hash_differs strong_hash_differs : BlockError

module _ (unique_hash : List ℕ → List ℕ) (info : HashInfo) where
  -- `blockValidator.BlockSize`
  unfoldable pub block_size_of : ℕ → ℕ → Option ℕ
  block_size_of file_index block_index = elim (get_elem? info.files file_index) [
    | none ↦ none
    | some f ↦ some (compute_block_size f.size block_index)
  ]

  unfoldable pub validate_as_wound : ℕ → ℕ → List ℕ → Option Wound
  unfolding block_size_of beta_hash find_group compute_block_size bytes_equal
  validate_as_wound file_index block_index bytes = elim (block_size_of file_index block_index) [
    | none ↦ none
    | some size ↦ elim (get_elem? (find_group info.groups file_index) block_index) [
      | none ↦ some (block_wound file_index block_index file size)
      | some bh ↦
          if bh.weak_hash == (beta_hash bytes).beta
          then if bytes_equal bh.strong_hash (unique_hash bytes)
            then some (block_wound file_index block_index closed_file size)
            else some (block_wound file_index block_index file size)
          else some (block_wound file_index block_index file size)
    ]
  ]

  -- What a call returns; an error's text is left out.
  unfoldable pub validate_as_error : ℕ → ℕ → List ℕ → Option (Option BlockError)
  unfolding beta_hash find_group bytes_equal
  validate_as_error file_index block_index bytes = elim (get_elem? info.files file_index) [
    | none ↦ none
    | some f ↦ elim (get_elem? (find_group info.groups file_index) block_index) [
      | none ↦ some (some too_large)
      | some bh ↦
          if bh.weak_hash == (beta_hash bytes).beta
          then if bytes_equal bh.strong_hash (unique_hash bytes)
            then some none
            else some (some strong_hash_differs)
          else some (some weak_hash_differs)
    ]
  ]
