-- ===== src/Pwr/Sign/Genuine.antt =====
-- The signature of a container of readable files (`ComputeSignature` of pwr/sign.go).
use wharf.Base.{
  ℕ, zero, suc, ◌+◌, ◌≡◌, refl, true, false, none, some, List, [], ◌∷◌, ◌++◌, arith, All,
}
use wharf.Wsync.Types.{BlockHash}
use wharf.Wsync.Diff.Reconstruct.{IsGenuine}
use wharf.Wsync.Signature.{SignParams, create_signature}
use wharf.Wsync.Signature.Blocks.{create_signature-block_hashes}
use wharf.Wsync.Signature.Genuine.{CollisionFree, create_signature-IsGenuine}
use wharf.Pwr.BlockMath.{block_size}
use wharf.Pwr.Sign.{Signer, sign_files, compute_signature_to_writer, compute_signature}

-- The container's files open, are read without an error, and the context is never done.
pub record IsReadable (w : Signer) (old : ℕ → List ℕ) : Type 0 where
  pub opens : (file : ℕ) → w.get_reader file ≡ some (record { content = old file; broken = false })
  pub going : (file block : ℕ) → w.canceled file block ≡ false

All-append {ℓ} :
    {A : Type 0} (P : A → Type ℓ) (xs ys : List A) → All P xs → All P ys → All P (xs ++ ys)
All-append P [] ys hx hy = hy
All-append P (x ∷ xs) ys hx hy = (hx.0, All-append P xs ys hx.1 hy)

module _ (w : Signer) (old : ℕ → List ℕ) (src : List ℕ) (readable : IsReadable w old)
    (free : CollisionFree w.unique_hash block_size old src) where
  abbrev IsGood : BlockHash → Type 0
  IsGood = IsGenuine w.unique_hash block_size old src

  abbrev params : ℕ → SignParams
  params file = record {
    block_size = block_size;
    unique_hash = w.unique_hash;
    file_index = file;
    accepts = λ own h. true;
    canceled = w.canceled file;
  }

  sign_files-step :
      (n file : ℕ) (hashes : List BlockHash)
      → sign_files w (λ taken h. true) (suc n) file hashes
        ≡ sign_files w
            (λ taken h. true)
            n
            (file + 1)
            (hashes ++ (create_signature (params file) (old file) false).1.hashes)
  unfolding sign_files
  sign_files-step n file hashes =
      let signed =
        (create_signature-block_hashes (params file) old (λ hs x. refl) (readable.going file)
          (omega arith)).0 in
      rw (readable.going file 0, readable.opens file, signed)

  sign_files-IsGood :
      (n file : ℕ) (hashes : List BlockHash)
      → All IsGood hashes
      → ((sign_files w (λ taken h. true) n file hashes).0 ≡ none)
        × All IsGood (sign_files w (λ taken h. true) n file hashes).1
  sign_files-IsGood zero file hashes h = unfold sign_files in (refl, h)
  sign_files-IsGood (suc n) file hashes h = rw (sign_files-step n file hashes) (
      sign_files-IsGood n (file + 1) _ (
        All-append IsGood hashes _ h (
          create_signature-IsGenuine (params file) old src free (λ hs x. refl) (readable.going file)
            (omega arith))))

  pub compute_signature-IsGenuine :
      (num_files : ℕ)
      → let (e, hashes) = compute_signature w num_files in (e ≡ none) × All IsGood hashes
  unfolding compute_signature compute_signature_to_writer
  compute_signature-IsGenuine num_files =
      let (ok, good) = sign_files-IsGood num_files 0 [] tt in
      rw (ok, compute_signature) (refl, good)
