-- ===== src/Wsync/Signature/Genuine.antt =====
-- The hashes of a file's signature as the library of `ComputeDiff` (wsync/hashes.go, wsync/algo.go).
use wharf.Base.{
  ℕ, zero, suc, ◌+◌, ◌*◌, ◌≤◌, ◌<◌, ◌≡◌, refl, sym, Bool, true, false, List, [], ◌∷◌, ◌++◌, arith,
  length, drop, length-take, length-drop, nil_of_length, ==_eq, ◌-◌, ◌/◌, All, if◌then◌else◌, ◌==◌,
}
use mathlib.Core.Path.{subst}
use wharf.Wsync.Types.{BlockHash}
use wharf.Wsync.Emitter.Bytes.{range_bytes}
use wharf.Wsync.Diff.Reconstruct.{IsGenuine}
use wharf.Wsync.Signature.{SignParams, make_hash, create_signature}
use wharf.Wsync.Signature.Blocks.{block_hashes, create_signature-block_hashes}

-- No piece of the new content shares the strong hash of a block of the old files without being
-- that block. It is what the algorithm relies on MD5 for.
pub record CollisionFree (unique_hash : List ℕ → List ℕ) (block_size : ℕ) (old : ℕ → List ℕ)
    (src : List ℕ) : Type 0 where
  pub same :
      (file block : ℕ) (pre piece post : List ℕ)
      → src ≡ pre ++ (piece ++ post)
      → unique_hash (range_bytes old block_size file block 1) ≡ unique_hash piece
      → piece ≡ range_bytes old block_size file block 1

module _ (p : SignParams) (old : ℕ → List ℕ) (src : List ℕ)
    (free : CollisionFree p.unique_hash p.block_size old src) where
  open p use {block_size, unique_hash, file_index}

  abbrev IsGood : BlockHash → Type 0
  IsGood = IsGenuine unique_hash block_size old src

  length-block : (i : ℕ) → length (range_bytes old block_size file_index i 1) ≤ block_size
  unfolding range_bytes
  length-block i =
      omega (arith, length-take (1 * block_size) (drop (i * block_size) (old file_index)))

  make_hash-IsGood : (i : ℕ) → IsGood (make_hash p i (range_bytes old block_size file_index i 1))
  make_hash-IsGood i = record {
    full_size = λ e. ground (arith, length-block i);
    true_size = λ e. ground (arith, length-block i);
    no_collision = λ pre piece post e h. free.same file_index i pre piece post e h;
  }

  block_hashes-IsGood : (n i : ℕ) → All IsGood (block_hashes p old n i)
  unfolding block_hashes
  block_hashes-IsGood zero i = tt
  block_hashes-IsGood (suc n) i = (make_hash-IsGood i, block_hashes-IsGood n (i + 1))

  empty_block : length (old file_index) ≡ 0 → [] ≡ range_bytes old block_size file_index 0 1
  unfolding range_bytes
  empty_block e = sym (
      nil_of_length _ (
        omega (
          arith,
          length-take (1 * block_size) (drop (0 * block_size) (old file_index)),
          length-drop (0 * block_size) (old file_index),
        )))

  signature_list-IsGood :
      (b : Bool)
      → (length (old file_index) == 0) ≡ b
      → All IsGood (
          if b
          then make_hash p 0 [] ∷ []
          else block_hashes p old ((length (old file_index) + block_size - 1) / block_size) 0)
  signature_list-IsGood true e = (
    subst (λ x. IsGood (make_hash p 0 x)) (sym (empty_block (==_eq _ 0 e))) (make_hash-IsGood 0),
    tt,
  )
  signature_list-IsGood false e = block_hashes-IsGood _ 0

  -- If the writer takes every hash, the context is not done and the reader does not fail, each
  -- hash of a file's signature is genuine: it stands for a block of the file, and for no other piece
  -- of the source, where the strong hash does not mistake one for the other.
  pub create_signature-IsGenuine :
      ((hashes : List BlockHash) (h : BlockHash) → p.accepts hashes h ≡ true)
      → ((k : ℕ) → p.canceled k ≡ false)
      → 0 < block_size
      → All IsGood (create_signature p (old file_index) false).1.hashes
  create_signature-IsGenuine all going pos =
      let (_, e) = create_signature-block_hashes p old all going pos in
      subst (All IsGood) (sym e) (signature_list-IsGood (length (old file_index) == 0) refl)
