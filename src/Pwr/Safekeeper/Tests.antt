-- ===== src/Pwr/Safekeeper/Tests.antt =====
-- Runs of the safe keeper (pwr/safekeeper.go) over a pool of an empty file and one of three bytes.
use wharf.Base.{
  ℕ, zero, suc, ◌+◌, true, false, Option, none, some, List, [], ◌∷◌, length, ◌/◌, ◌≡◌, refl, min,
  ◌-◌,
}
use wharf.Wsync.Types.{BlockHash}
use wharf.Wsync.Rolling.{beta_hash}
use wharf.Pwr.BlockMath.{block_size, compute_block_size}
use wharf.Pwr.Validate.{HashInfo, too_large, weak_hash_differs}
use wharf.Pwr.Safekeeper.{SafeError, invalid, signature_failed, Inner, Reader, read_checked}
use wharf.Pwr.Safekeeper.Checked.{IsChecked, IsValid, read_checked-IsChecked}

abbrev bytes : List ℕ
bytes = 7 ∷ 8 ∷ 9 ∷ []

abbrev content : ℕ → List ℕ
content zero = []
content (suc i) = bytes

abbrev hash : BlockHash
hash = record {
  file_index = 1;
  block_index = 0;
  weak_hash = (beta_hash bytes).beta;
  short_size = 3;
  strong_hash = bytes;
}

abbrev info : HashInfo
info = record {
  files = record { path = 1 ∷ []; size = 0 } ∷ record { path = 2 ∷ []; size = 3 } ∷ [];
  groups = (1, hash ∷ []) ∷ [];
}

abbrev whole_reads : Inner
whole_reads = record {
  content = content;
  can_seek = λ file offset. true;
  read = λ file pos len. some (min len (length (content file) - pos));
}

-- A Read returns one byte at most.
abbrev short_reads : Inner
short_reads = record whole_reads { read = λ file pos len. some (min 1 len) }

-- The world counts the attempts to load the signature.
abbrev load : ℕ → Option HashInfo × ℕ
load n = (some info, n + 1)

abbrev fails : ℕ → Option HashInfo × ℕ
fails n = (none, n + 1)

abbrev unique_hash : List ℕ → List ℕ
unique_hash b = b

abbrev reader : ℕ → Reader ℕ
reader file = record {
  keeper = record { block_validator = none; sig_error = false; valid_blocks = [] };
  world = 0;
  file_index = file;
  offset = 0;
  pos = 0;
}

abbrev run : Inner → (ℕ → Option HashInfo × ℕ) → ℕ → Reader ℕ → Option SafeError × List ℕ × Reader ℕ
run inner load = read_checked unique_hash inner load

-- Two reads, with one attempt to load the signature
reads :
    ((run whole_reads load 2 (reader 1)).1 ≡ 7 ∷ 8 ∷ [])
    × ((run whole_reads load 2 (run whole_reads load 2 (reader 1)).2).1 ≡ 9 ∷ [])
    × ((run whole_reads load 2 (run whole_reads load 2 (reader 1)).2).2.world ≡ 1)
unfolding read_checked compute_block_size
reads = (refl, refl, refl)

no_signature :
    ((run whole_reads fails 2 (run whole_reads fails 2 (reader 1)).2).0 ≡ some signature_failed)
    × ((run whole_reads fails 2 (run whole_reads fails 2 (reader 1)).2).2.world ≡ 1)
unfolding read_checked compute_block_size
no_signature = (refl, refl)

-- An inner reader that returns less than a block has a sound file refused.
short_read_refused : (run short_reads load 2 (reader 1)).0 ≡ some (invalid weak_hash_differs)
unfolding read_checked compute_block_size
short_read_refused = refl

-- An empty file has no hashes, so reading it is an error and not its end.
empty_file_refused : (run whole_reads load 2 (reader 0)).0 ≡ some (invalid too_large)
unfolding read_checked compute_block_size
empty_file_refused = refl

read_checked-IsChecked_example :
    let (e, bytes, r') = run whole_reads load 2 (reader 1) in
    IsChecked unique_hash whole_reads load r'
    × (e ≡ none → IsValid unique_hash whole_reads load 1 (0 / block_size) r')
read_checked-IsChecked_example =
    read_checked-IsChecked unique_hash whole_reads load 2 (reader 1) refl
