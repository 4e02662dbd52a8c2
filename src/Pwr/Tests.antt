-- ===== src/Pwr/Tests.antt =====
-- The round trip at a concrete input, with the block size of the code.
use wharf.Base.{
  ℕ, zero, suc, ◌<◌, ◌≤◌, ◌≡◌, refl, sym, true, false, none, some, List, [], ◌∷◌, arith, length,
}
use wharf.Wsync.Diff.{compute_diff}
use wharf.Wsync.Apply.{Pool, Output, apply_patch}
use wharf.Wsync.Apply.Healthy.{IsHealthy}
use wharf.Wsync.Signature.Genuine.{CollisionFree}
use wharf.Pwr.BlockMath.{
  block_size, compute_num_blocks, compute_block_size, sum_block_sizes, sum_block_sizes-num_blocks,
}
use wharf.Pwr.Sign.{Signer, compute_signature}
use wharf.Pwr.Sign.Genuine.{IsReadable}
use wharf.Pwr.RoundTrip.{diff_params, sign-diff-apply}

abbrev old : ℕ → List ℕ
old zero = 1 ∷ 2 ∷ 3 ∷ []
old (suc n) = []

abbrev signer : Signer
signer = record {
  unique_hash = λ xs. xs;
  get_reader = λ file. some (record { content = old file; broken = false });
  canceled = λ file block. false;
}

abbrev pool : Pool
pool = record {
  get_size = λ file. length (old file);
  get_read_seeker =
      λ file. some (record { content = old file; broken = false; can_seek = λ offset. true });
}

readable : IsReadable signer old
readable = record { opens = λ file. refl; going = λ file block. refl }

healthy : IsHealthy pool old
healthy = record { size = λ file. refl; opens = λ file. refl }

abbrev new_content : List ℕ
new_content = 1 ∷ 2 ∷ 3 ∷ []

free : CollisionFree signer.unique_hash block_size old new_content
free = record { same = λ file block pre piece post e h. sym h }

abbrev nothing : Output
nothing = record { written = []; room = 100 }

sign-diff-apply_example :
    let (e, o) =
      compute_diff
        (diff_params signer 2 0 (some 0))
        (record { rest = new_content; broken = false }) in
    let (e', out') = apply_patch block_size pool o.sent nothing in
    ((compute_signature signer 2).0 ≡ none)
    × (e ≡ none)
    × (e' ≡ none)
    × (out'.written ≡ new_content)
sign-diff-apply_example =
    sign-diff-apply signer old 2 0 (some 0) new_content pool nothing readable healthy free
      (omega arith)

two_blocks : compute_num_blocks 70_000 ≡ 2
unfolding compute_num_blocks
two_blocks = refl

sum_block_sizes-num_blocks_example :
    (sum_block_sizes 70_000 (compute_num_blocks 70_000) ≡ 70_000)
    × ((i : ℕ)
        → i < compute_num_blocks 70_000
        → (0 < compute_block_size 70_000 i) × (compute_block_size 70_000 i ≤ block_size))
sum_block_sizes-num_blocks_example = sum_block_sizes-num_blocks 70_000
