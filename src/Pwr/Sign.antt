-- ===== src/Pwr/Sign.antt =====
-- `ComputeSignature` and `ComputeSignatureToWriter` of pwr/sign.go over the files of a container.
-- The pool gives for each file its bytes and whether reading it then fails.
pub mod Genuine
use wharf.Base.{
  ℕ, zero, suc, ◌+◌, Bool, true, false, Option, none, some, List, [], ◌++◌, if◌then◌else◌,
}
use wharf.Wsync.Types.{BlockHash}
use wharf.Wsync.Signature.{SignError, create_signature}
use wharf.Pwr.BlockMath.{block_size}

pub record Reader : Type 0 where
  pub content : List ℕ
  pub broken : Bool

pub data SignatureError : Type 0 where
  cancelled open_failed : SignatureError
  file_failed : SignError → SignatureError

-- `canceled` tells for a file, and a block of it, whether the context is done there.
pub record Signer : Type 0 where
  pub unique_hash : List ℕ → List ℕ
  pub get_reader : ℕ → Option Reader
  pub canceled : ℕ → ℕ → Bool

module _ (w : Signer) (accepts : List BlockHash → BlockHash → Bool) where
  -- The files from `file_index` on; the hashes are those that the writer has taken.
  pub sign_files : ℕ → ℕ → List BlockHash → Option SignatureError × List BlockHash
  sign_files zero file_index hashes = (none, hashes)
  sign_files (suc n) file_index hashes =
      if w.canceled file_index 0 then (some cancelled, hashes) else elim (w.get_reader file_index) [
        | none ↦ (some open_failed, hashes)
        | some reader ↦
            let (e, s) =
              create_signature
                (record {
                  block_size = block_size;
                  unique_hash = w.unique_hash;
                  file_index = file_index;
                  accepts = λ own h. accepts (hashes ++ own) h;
                  canceled = w.canceled file_index;
                })
                reader.content reader.broken in
            elim e [
              | some x ↦ (some (file_failed x), hashes ++ s.hashes)
              | none ↦ sign_files n (file_index + 1) (hashes ++ s.hashes)
            ]
      ]

  pub compute_signature_to_writer : ℕ → Option SignatureError × List BlockHash
  unfolding sign_files
  compute_signature_to_writer num_files = sign_files num_files 0 []

-- No hashes are returned beside an error.
pub compute_signature : Signer → ℕ → Option SignatureError × List BlockHash
unfolding compute_signature_to_writer
compute_signature w num_files =
    let (e, hashes) = compute_signature_to_writer w (λ taken h. true) num_files in
    elim e [ some x ↦ (some x, []) | none ↦ (none, hashes) ]
