-- ===== src/Wsync/Tests.antt =====
-- Runs of the rsync algorithm with blocks of two bytes, and the theorems at concrete inputs. The
-- strong hash is the block itself, which has no collision.
use wharf.Base.{
  ℕ, zero, suc, ◌+◌, ◌≤◌, ◌<◌, ◌≡◌, ◌≢◌, ◌⊎◌, refl, sym, true, false, none, some, List, [], ◌∷◌,
  ◌++◌, arith, All, length, slice, bytes_equal, ◌==◌, ◌&&◌,
}
use wharf.Wsync.Types.{Operation, op_block_range, op_data, BlockHash}
use wharf.Wsync.Rolling.{beta_hash, roll}
use wharf.Wsync.Rolling.Window.{roll-beta_hash}
use wharf.Wsync.Library.{lookup, new_block_library, find_unique_hash, is_match}
use wharf.Wsync.Library.Lookup.{with_weak_hash, extend, lookup-new_block_library}
use wharf.Wsync.Library.Find.{
  Found, find_unique_hash-Found, find_unique_hash-none, find_unique_hash-prefers,
}
use wharf.Wsync.Emitter.{no_ops, enqueue, send_waiting, source_failed, stuck}
use wharf.Wsync.Emitter.Bytes.{range_bytes, op_bytes, ops_bytes, output, enqueue-bytes}
use wharf.Wsync.Diff.{Params, Source, start, rounds, compute_diff, round}
use wharf.Wsync.Diff.Measure.{left}
use wharf.Wsync.Diff.Bounds.{InBounds, round_bounds, start-InBounds}
use wharf.Wsync.Diff.Sizes.{IsSized, compute_diff-IsSized}
use wharf.Wsync.Diff.Total.{compute_diff_reconstructs, compute_diff-ne-stuck}
use wharf.Wsync.Apply.{Pool, Target, Output, apply_single_full, apply_patch, op_size}
use wharf.Wsync.Apply.Healthy.{IsHealthy, apply_patch-ops_bytes}
use wharf.Wsync.Apply.Padding.{padding_keeps_length}
use wharf.Wsync.Signature.{SignParams, create_signature}
use wharf.Wsync.Signature.Blocks.{create_signature-block_hashes, block_hashes}
use wharf.Wsync.Signature.Genuine.{CollisionFree, create_signature-IsGenuine}
use wharf.Wsync.Signature.Finds.{find_unique_hash-create_signature}
use wharf.Wsync.Diff.Reconstruct.{IsGenuine}

abbrev old : ℕ → List ℕ
old zero = 1 ∷ 2 ∷ 3 ∷ 4 ∷ 5 ∷ []
old (suc n) = []

abbrev same_hash : List ℕ → List ℕ
same_hash xs = xs

abbrev sign_params : SignParams
sign_params = record {
  block_size = 2;
  unique_hash = same_hash;
  file_index = 0;
  accepts = λ hashes h. true;
  canceled = λ k. false;
}

abbrev hashes : List BlockHash
hashes = (create_signature sign_params (old 0) false).1.hashes

abbrev params : Params
params = record {
  block_size = 2;
  unique_hash = same_hash;
  context_buffer = 0;
  library = new_block_library hashes;
  preferred = some 0;
  accepts = λ ops op. true;
}

-- `1 2 3 4`, a fresh `9`, and the short block `5`
abbrev new_content : List ℕ
new_content = 1 ∷ 2 ∷ 3 ∷ 4 ∷ 9 ∷ 9 ∷ 3 ∷ 4 ∷ 5 ∷ []

abbrev source : Source
source = record { rest = new_content; broken = false }

abbrev expected_ops : List Operation
expected_ops = op_block_range 0 0 2 ∷ op_data (9 ∷ 9 ∷ []) ∷ op_block_range 0 1 2 ∷ []

compute_diff_runs : (compute_diff params source).1.sent ≡ expected_ops
unfolding compute_diff send_waiting enqueue new_block_library lookup find_unique_hash bytes_equal
    slice create_signature beta_hash roll
compute_diff_runs = refl

abbrev free : CollisionFree same_hash 2 old new_content
free = record { same = λ file block pre piece post e h. sym h }

genuine : All (IsGenuine same_hash 2 old new_content) hashes
genuine =
    create_signature-IsGenuine sign_params old new_content free (λ hs h. refl) (λ k. refl)
      (omega arith)

compute_diff_reconstructs_example :
    let (e, o) = compute_diff params source in (e ≡ none) × (ops_bytes old 2 o.sent ≡ new_content)
compute_diff_reconstructs_example =
    compute_diff_reconstructs params old new_content hashes refl genuine (omega arith)
      (λ ops op. refl)

compute_diff-ne-stuck_example :
    ((rounds params 11 (start source)).0 ≢ some stuck)
    × ((compute_diff params source).0 ≢ some stuck)
compute_diff-ne-stuck_example = compute_diff-ne-stuck params source 11 (omega arith) (omega arith)

compute_diff-IsSized_example : All (IsSized 2) (compute_diff params source).1.sent
compute_diff-IsSized_example = compute_diff-IsSized params (omega arith) source

-- The reader fails behind the first block.
abbrev failing : Source
failing = record { rest = 1 ∷ 2 ∷ []; broken = true }

failing_fails :
    ((rounds params 4 (start failing)).0 ≡ some source_failed)
    × ((rounds params 4 (start failing)).1.out.prev_op ≡ some (op_block_range 0 0 1))
unfolding compute_diff enqueue new_block_library lookup find_unique_hash bytes_equal slice
    create_signature beta_hash roll
failing_fails = (refl, refl)

-- The error is lost: a block range waits, and the deferred function's send succeeds.
error_hidden : (compute_diff params failing).0 ≡ none
unfolding compute_diff send_waiting enqueue new_block_library lookup find_unique_hash bytes_equal
    slice create_signature beta_hash roll
error_hidden = refl

first_round :
    ((round params (start source)).0 ≡ none) × ((round params (start source)).1.last_run ≡ false)
unfolding compute_diff enqueue new_block_library lookup find_unique_hash bytes_equal slice
    create_signature beta_hash roll
first_round = (refl, refl)

round_bounds_example :
    InBounds params (round params (start source)).1
    × (left (round params (start source)).1 < left (start source))
round_bounds_example =
    round_bounds params (start source) (omega arith) (start-InBounds params source) refl
      first_round.0 first_round.1

roll-beta_hash_example : roll (beta_hash (1 ∷ 2 ∷ 3 ∷ [])) 3 1 4 ≡ beta_hash (2 ∷ 3 ∷ 4 ∷ [])
roll-beta_hash_example = roll-beta_hash 1 4 (2 ∷ 3 ∷ []) (omega arith) (omega arith) (omega arith)

abbrev hash_a : BlockHash
hash_a = record {
  file_index = 0;
  block_index = 0;
  weak_hash = 7;
  short_size = 0;
  strong_hash = 1 ∷ [];
}

abbrev hash_b : BlockHash
hash_b = record {
  file_index = 1;
  block_index = 4;
  weak_hash = 7;
  short_size = 0;
  strong_hash = 1 ∷ [];
}

abbrev hash_c : BlockHash
hash_c = record {
  file_index = 1;
  block_index = 5;
  weak_hash = 8;
  short_size = 0;
  strong_hash = 2 ∷ [];
}

abbrev three : List BlockHash
three = hash_a ∷ hash_c ∷ hash_b ∷ []

lookup-new_block_library_example :
    lookup 7 (new_block_library three) ≡ extend none (with_weak_hash 7 three)
lookup-new_block_library_example = lookup-new_block_library 7 three

find_preferred : find_unique_hash same_hash three (1 ∷ []) 0 (some 1) ≡ some hash_b
unfolding find_unique_hash bytes_equal
find_preferred = refl

find_unique_hash-Found_example : Found same_hash (λ h. h.weak_hash < 9) (1 ∷ []) 0 hash_b
find_unique_hash-Found_example =
    find_unique_hash-Found same_hash (λ h. h.weak_hash < 9) three (omega arith) (1 ∷ []) 0 (some 1)
      find_preferred

find_unique_hash-prefers_example :
    ((h : BlockHash) × (find_unique_hash same_hash three (1 ∷ []) 0 (some 1) ≡ some h)
      × (h.file_index ≡ 1)
      × (h.short_size ≡ 0)
      × (h.strong_hash ≡ 1 ∷ []))
    ⊎ All (λ k. (k.file_index == 1 && is_match same_hash (1 ∷ []) 0 k) ≡ false) three
find_unique_hash-prefers_example =
    find_unique_hash-prefers same_hash three (1 ∷ []) 0 1 (omega arith)

nothing_found : find_unique_hash same_hash three (3 ∷ []) 0 (some 1) ≡ none
unfolding find_unique_hash bytes_equal
nothing_found = refl

find_unique_hash-none_example :
    (◌≡◌ {A = List ℕ} (3 ∷ []) []) ⊎ All (λ h. is_match same_hash (3 ∷ []) 0 h ≡ false) three
find_unique_hash-none_example =
    find_unique_hash-none same_hash three (3 ∷ []) 0 (some 1) nothing_found

enqueue_ok : (enqueue (λ ops op. true) (op_data (5 ∷ [])) no_ops).0 ≡ none
unfolding enqueue
enqueue_ok = refl

enqueue-bytes_example :
    output old 2 (enqueue (λ ops op. true) (op_data (5 ∷ [])) no_ops).1
    ≡ output old 2 no_ops ++ (5 ∷ [])
unfolding op_bytes
enqueue-bytes_example = enqueue-bytes old 2 (λ ops op. true) (op_data (5 ∷ [])) no_ops enqueue_ok

create_signature-block_hashes_example :
    let (e, s) = create_signature sign_params (old 0) false in
    (e ≡ none) × (s.hashes ≡ block_hashes sign_params old 3 0)
create_signature-block_hashes_example =
    create_signature-block_hashes sign_params old (λ hs h. refl) (λ k. refl) (omega arith)

find_unique_hash-create_signature_example :
    (bucket : List BlockHash) × (h : BlockHash) × (lookup
        (beta_hash (5 ∷ [])).beta
        (new_block_library hashes)
      ≡ some bucket)
    × (find_unique_hash same_hash bucket (5 ∷ []) 1 none ≡ some h)
unfolding range_bytes
find_unique_hash-create_signature_example =
    find_unique_hash-create_signature sign_params old (λ hs h. refl) (λ k. refl) (omega arith) 2
      none (omega arith)

abbrev pool : Pool
pool = record {
  get_size = λ file. length (old file);
  get_read_seeker =
      λ file. some (record { content = old file; broken = false; can_seek = λ offset. true });
}

healthy : IsHealthy pool old
healthy = record { size = λ file. refl; opens = λ file. refl }

abbrev nothing : Output
nothing = record { written = []; room = 100 }

apply_patch-ops_bytes_example :
    ((apply_patch 2 pool expected_ops nothing).0 ≡ none)
    × ((apply_patch 2 pool expected_ops nothing).1.written ≡ ops_bytes old 2 expected_ops)
unfolding ops_bytes
apply_patch-ops_bytes_example =
    apply_patch-ops_bytes 2 pool old healthy expected_ops nothing (omega arith) (omega arith)
      (omega arith)

apply_runs : (apply_patch 2 pool expected_ops nothing).1.written ≡ new_content
unfolding apply_patch
apply_runs = refl

-- A file of five bytes of which the first alone can be read.
abbrev damaged : Pool
damaged = record {
  get_size = λ file. 5;
  get_read_seeker =
      λ file. some (record { content = 1 ∷ []; broken = true; can_seek = λ offset. true });
}

padding_runs :
    (apply_single_full 2 damaged false (op_block_range 0 0 3) nothing).1.written
    ≡ 1 ∷ 0 ∷ 0 ∷ 0 ∷ 0 ∷ []
unfolding apply_single_full
padding_runs = refl

damaged_fails :
    (t : Target)
    → damaged.get_read_seeker 0 ≡ some t
    → (t.broken ≡ true) ⊎ (op_size 2 5 0 3 ≤ length t.content)
damaged_fails t e = ground arith

padding_keeps_length_example :
    let (e, out) = apply_single_full 2 damaged false (op_block_range 0 0 3) nothing in
    (e ≡ none) × (length out.written ≡ 0 + op_size 2 5 0 3)
unfolding op_size
padding_keeps_length_example =
    padding_keeps_length 2 damaged 0 0 3 nothing (omega arith) damaged_fails
