-- ===== src/Wsync/Library.antt =====
-- `NewBlockLibrary` of wsync/block_library.go and `findUniqueHash` of wsync/hashes.go. A Go map is
-- an association list. The strong hash is MD5, taken as the parameter `unique_hash`.
pub mod Lookup
pub mod Find
use wharf.Base.{
  ℕ, Bool, ◌&&◌, Option, none, some, List, [], ◌∷◌, ◌++◌, ◌==◌, bytes_equal, if◌then◌else◌,
}
use wharf.Wsync.Types.{BlockHash}

abbrev pub HashLookup : Type 0
HashLookup = List (ℕ × List BlockHash)

unfoldable pub lookup : ℕ → HashLookup → Option (List BlockHash)
lookup key [] = none
lookup key ((k, hashes) ∷ m) = if k == key then some hashes else lookup key m

-- One round of the loop: a new bucket, or the hash at the end of the bucket that is there.
unfoldable pub add_hash : BlockHash → HashLookup → HashLookup
add_hash hash [] = (hash.weak_hash, hash ∷ []) ∷ []
add_hash hash ((k, hashes) ∷ m) =
    if k == hash.weak_hash then (k, hashes ++ (hash ∷ [])) ∷ m else (k, hashes) ∷ add_hash hash m

add_hashes : HashLookup → List BlockHash → HashLookup
add_hashes m [] = m
add_hashes m (hash ∷ hashes) = add_hashes (add_hash hash m) hashes

unfoldable pub new_block_library : List BlockHash → HashLookup
unfolding add_hashes add_hash
new_block_library = add_hashes []

-- The first element that passes, as a `for` loop with a `return` finds it.
pub find_first : (BlockHash → Bool) → List BlockHash → Option BlockHash
find_first test [] = none
find_first test (block ∷ hh) = if test block then some block else find_first test hh

abbrev pub or_else : Option BlockHash → Option BlockHash → Option BlockHash
or_else none second = second
or_else (some block) second = some block

module _ (unique_hash : List ℕ → List ℕ) where
  unfoldable pub is_match : List ℕ → ℕ → BlockHash → Bool
  is_match bytes short_size block =
      block.short_size == short_size && bytes_equal block.strong_hash (unique_hash bytes)

  abbrev find_preferred : List BlockHash → List ℕ → ℕ → Option ℕ → Option BlockHash
  find_preferred hh bytes short_size none = none
  find_preferred hh bytes short_size (some file) =
      find_first (λ block. block.file_index == file && is_match bytes short_size block) hh

  -- A `preferredFileIndex` of -1 is `none`. The strong hash is computed once at most in the code.
  unfoldable pub find_unique_hash : List BlockHash → List ℕ → ℕ → Option ℕ → Option BlockHash
  unfolding find_first is_match
  find_unique_hash hh [] short_size preferred = none
  find_unique_hash hh (b ∷ bs) short_size preferred =
      or_else (find_preferred hh (b ∷ bs) short_size preferred)
        (find_first (is_match (b ∷ bs) short_size) hh)
