-- ===== src/Pwr/Validate/Tests.antt =====
-- Runs of the grouping of hashes and of the check of a block (pwr/hashinfo.go,
-- pwr/blockvalidator.go).
use wharf.Base.{ℕ, ◌≡◌, refl, Option, none, some, List, [], ◌∷◌, length, get_elem?, ◌↔◌}
use wharf.Wsync.Types.{BlockHash}
use wharf.Wsync.Rolling.{beta_hash}
use wharf.Pwr.BlockMath.{compute_block_size}
use wharf.Pwr.Validate.{
  File, SignatureInfo, HashInfo, BlockError, weak_hash_differs, failed, panicked, wrong_count,
  grouped, compute_hash_info, find_group, block_wound, validate_as_error, validate_as_wound,
}
use wharf.Pwr.Validate.Blocks.{kind_of, validate_as_wound-as_error, validate_as_error-none}
use wharf.Pwr.Validate.Groups.{IsGrouped, total_count, compute_hash_info-count}

abbrev hash : ℕ → List ℕ → BlockHash
hash index bytes = record {
  file_index = index;
  block_index = 0;
  weak_hash = (beta_hash bytes).beta;
  short_size = length bytes;
  strong_hash = bytes;
}

-- An empty file, and a file of three bytes.
abbrev files : List File
files = record { path = 1 ∷ []; size = 0 } ∷ record { path = 2 ∷ []; size = 3 } ∷ []

abbrev hashes : List BlockHash
hashes = hash 0 [] ∷ hash 1 (7 ∷ 8 ∷ 9 ∷ []) ∷ []

abbrev sig : SignatureInfo
sig = record { files = files; hashes = hashes; spare = [] }

abbrev info : HashInfo
info = record { files = files; groups = (1, hash 1 (7 ∷ 8 ∷ 9 ∷ []) ∷ []) ∷ [] }

compute_hash_info_runs : compute_hash_info sig ≡ grouped info
unfolding compute_hash_info
compute_hash_info_runs = refl

-- With a hash too many the count is wrong; with one too few the slice is out of range.
compute_hash_info_fails :
    (compute_hash_info (record sig { hashes = hash 0 [] ∷ hashes }) ≡ failed wrong_count)
    × (compute_hash_info (record sig { hashes = hash 0 [] ∷ [] }) ≡ failed panicked)
unfolding compute_hash_info
compute_hash_info_fails = (refl, refl)

compute_hash_info-count_example :
    IsGrouped (compute_hash_info sig) ↔ (total_count files ≡ length hashes)
compute_hash_info-count_example = compute_hash_info-count sig

validate_as_error_runs :
    (validate_as_error (λ b. b) info 1 0 (7 ∷ 8 ∷ 9 ∷ []) ≡ some none)
    × (validate_as_error (λ b. b) info 1 0 (7 ∷ 8 ∷ []) ≡ some (some weak_hash_differs))
unfolding validate_as_error
validate_as_error_runs = (refl, refl)

validate_as_wound-as_error_example :
    (e : Option BlockError) × (validate_as_error (λ b. b) info 1 0 (7 ∷ 8 ∷ []) ≡ some e)
    × (validate_as_wound (λ b. b) info 1 0 (7 ∷ 8 ∷ [])
        ≡ some (block_wound 1 0 (kind_of e) (compute_block_size 3 0)))
validate_as_wound-as_error_example =
    validate_as_wound-as_error (λ b. b) info 1 0 (7 ∷ 8 ∷ []) (record { path = 2 ∷ []; size = 3 })
      refl

validate_as_error-none_example :
    (validate_as_error (λ b. b) info 1 0 (7 ∷ 8 ∷ 9 ∷ []) ≡ some none) ↔ (
      (bh : BlockHash) × (get_elem? (find_group info.groups 1) 0 ≡ some bh)
      × (bh.weak_hash ≡ (beta_hash (7 ∷ 8 ∷ 9 ∷ [])).beta)
      × (bh.strong_hash ≡ 7 ∷ 8 ∷ 9 ∷ []))
validate_as_error-none_example =
    validate_as_error-none (λ b. b) info 1 0 (7 ∷ 8 ∷ 9 ∷ []) (record { path = 2 ∷ []; size = 3 })
      refl
