-- ===== src/Pwr/RoundTrip.antt =====
-- Signing the old files, diffing a new one against their signature and applying the operations, as
-- `ComputeSignature`, `WritePatch` (pwr/diff.go) and the patcher use the rsync algorithm.
use wharf.Base.{
  ℕ, ◌≤◌, ◌≡◌, refl, ap, ◌∙◌, true, false, Option, none, List, [], ◌∷◌, ◌++◌, arith, All, length,
}
use wharf.Wsync.Types.{Operation, op_block_range, op_data}
use wharf.Wsync.Library.{new_block_library}
use wharf.Wsync.Emitter.Bytes.{ops_bytes}
use wharf.Wsync.Diff.{Params, Source, compute_diff}
use wharf.Wsync.Diff.Total.{compute_diff_reconstructs}
use wharf.Wsync.Diff.Sizes.{IsSized, compute_diff-IsSized}
use wharf.Wsync.Apply.{Pool, Output, apply_patch}
use wharf.Wsync.Apply.Healthy.{IsHealthy, HasBlocks, apply_patch-ops_bytes}
use wharf.Wsync.Signature.Genuine.{CollisionFree}
use wharf.Pwr.BlockMath.{block_size}
use wharf.Pwr.Sign.{Signer, compute_signature}
use wharf.Pwr.Sign.Genuine.{IsReadable, compute_signature-IsGenuine}

-- The parameters of `ComputeDiff` in `WritePatch`, with a writer that never fails.
abbrev pub diff_params : Signer → ℕ → ℕ → Option ℕ → Params
diff_params w num_files context_buffer preferred = record {
  block_size = block_size;
  unique_hash = w.unique_hash;
  context_buffer = context_buffer;
  library = new_block_library (compute_signature w num_files).1;
  preferred = preferred;
  accepts = λ ops op. true;
}

HasBlocks-All : (ops : List Operation) → All (IsSized block_size) ops → All HasBlocks ops
HasBlocks-All [] h = tt
HasBlocks-All (op_block_range f i s ∷ ops) h = (h.0, HasBlocks-All ops h.1)
HasBlocks-All (op_data d ∷ ops) h = (tt, HasBlocks-All ops h.1)

-- The operations for new content against the signature of old files that can be read, applied to
-- the same files with room in the output, write the new content, and no step returns an error. The
-- strong hash is assumed not to mistake a piece of the new content for a block of the old files.
pub sign-diff-apply :
    (w : Signer) (old : ℕ → List ℕ) (num_files context_buffer : ℕ) (preferred : Option ℕ)
    (src : List ℕ) (pool : Pool) (out : Output)
    → IsReadable w old
    → IsHealthy pool old
    → CollisionFree w.unique_hash block_size old src
    → length src ≤ out.room
    → let (e, o) =
        compute_diff
          (diff_params w num_files context_buffer preferred)
          (record { rest = src; broken = false }) in
      let (e', out') = apply_patch block_size pool o.sent out in
      ((compute_signature w num_files).0 ≡ none)
      × (e ≡ none)
      × (e' ≡ none)
      × (out'.written ≡ out.written ++ src)
sign-diff-apply w old num_files context_buffer preferred src pool out readable healthy free fits =
    (signed, ok, applied.0, applied.1 ∙ ap (λ x. out.written ++ x) whole)
  where
    p : Params
    p = diff_params w num_files context_buffer preferred

    new : Source
    new = record { rest = src; broken = false }

    signed : (compute_signature w num_files).0 ≡ none
    signed = (compute_signature-IsGenuine w old src readable free num_files).0

    diffed :
        ((compute_diff p new).0 ≡ none)
        × (ops_bytes old block_size (compute_diff p new).1.sent ≡ src)
    diffed =
        compute_diff_reconstructs p old src (compute_signature w num_files).1 refl
          (compute_signature-IsGenuine w old src readable free num_files).1 (omega arith)
          (λ ops op. refl)

    ok : (compute_diff p new).0 ≡ none
    ok = diffed.0

    whole : ops_bytes old block_size (compute_diff p new).1.sent ≡ src
    whole = diffed.1

    applied :
        ((apply_patch block_size pool (compute_diff p new).1.sent out).0 ≡ none)
        × ((apply_patch block_size pool (compute_diff p new).1.sent out).1.written
            ≡ out.written ++ ops_bytes old block_size (compute_diff p new).1.sent)
    applied =
        apply_patch-ops_bytes block_size pool old healthy (compute_diff p new).1.sent out
          (omega arith) (HasBlocks-All _ (compute_diff-IsSized p (omega arith) new))
          (omega (arith, ap (λ x. length x) whole))
