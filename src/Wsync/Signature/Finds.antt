-- ===== src/Wsync/Signature/Finds.antt =====
-- The blocks of a file are found in the library of its signature (wsync/hashes.go,
-- wsync/block_library.go).
use wharf.Base.{
  ℕ, zero, suc, ◌+◌, ◌-◌, ◌*◌, ◌/◌, ◌<◌, ◌≡◌, refl, ap, ◌∙◌, true, false, Option, none, some, List,
  [], ◌∷◌, arith, length, drop, length-take, length-drop, All, if◌then◌else◌, ◌==◌, Bool-cases,
  Option-cases, inl, inr, ltb, bytes_equal,
}
use native.Mathlib.Nat.{le-div_iff_mul-le}
use mathlib.Core.Path.{subst}
use wharf.Wsync.Types.{BlockHash}
use wharf.Wsync.Rolling.{beta_hash}
use wharf.Wsync.Emitter.Bytes.{range_bytes}
use wharf.Wsync.Library.{lookup, new_block_library, find_unique_hash, is_match}
use wharf.Wsync.Library.Lookup.{with_weak_hash, extend, lookup-new_block_library}
use wharf.Wsync.Library.Find.{find_unique_hash-none, find_unique_hash-Found}
use wharf.Wsync.Signature.{SignParams, make_hash, create_signature}
use wharf.Wsync.Signature.Blocks.{block_hashes, num_blocks, create_signature-block_hashes}

-- What holds of all of a bucket holds of the hashes that belong in it.
All-from_bucket :
    (P : BlockHash → Type 0) (key : ℕ) (hs : List BlockHash)
    → All P (with_weak_hash key hs)
    → All (λ h. h.weak_hash ≡ key → P h) hs
unfolding with_weak_hash
All-from_bucket P key [] all = tt
All-from_bucket P key (h ∷ hs) all = elim (Bool-cases (h.weak_hash == key)) [
  | inl e ↦
      let all' : All P (h ∷ with_weak_hash key hs) =
        subst (λ b. All P (if b then h ∷ with_weak_hash key hs else with_weak_hash key hs)) e all in
      (λ x. all'.0, All-from_bucket P key hs all'.1)
  | inr e ↦
      let all' : All P (with_weak_hash key hs) =
        subst (λ b. All P (if b then h ∷ with_weak_hash key hs else with_weak_hash key hs)) e all in
      (λ x. absurd (ground (arith, e, x)), All-from_bucket P key hs all')
]

bytes_equal_refl : (xs : List ℕ) → bytes_equal xs xs ≡ true
unfolding bytes_equal
bytes_equal_refl [] = refl
bytes_equal_refl (x ∷ xs) = ground (arith, bytes_equal_refl xs)

-- A bucket that a hash is found in is one that the library has.
bucket_there :
    (unique_hash : List ℕ → List ℕ) (bucket : List BlockHash) (bytes : List ℕ) (short_size : ℕ)
    (preferred : Option ℕ) (h : BlockHash)
    → find_unique_hash unique_hash bucket bytes short_size preferred ≡ some h
    → extend none bucket ≡ some bucket
bucket_there u [] bytes short_size preferred h e =
    absurd (find_unique_hash-Found u (λ k. ⊥) [] tt bytes short_size preferred e).holds
bucket_there u (k ∷ ks) bytes short_size preferred h e = refl

module _ (p : SignParams) (old : ℕ → List ℕ) where
  open p use {block_size, unique_hash, file_index}

  abbrev block : ℕ → List ℕ
  block i = range_bytes old block_size file_index i 1

  -- `shortSize` of a whole block is 0.
  abbrev pub short_size_of : List ℕ → ℕ
  short_size_of bytes = if ltb (length bytes) block_size then length bytes else 0

  at_block :
      (P : BlockHash → Type 0) (n i j : ℕ)
      → All P (block_hashes p old n j)
      → i < n
      → P (make_hash p (j + i) (block (j + i)))
  unfolding block_hashes
  at_block P zero i j all lt = absurd (omega arith)
  at_block P (suc n) zero j all lt = subst (λ k. P (make_hash p k (block k))) (omega arith) all.0
  at_block P (suc n) (suc i) j all lt =
      subst (λ k. P (make_hash p k (block k))) (omega arith)
        (at_block P n i (j + 1) all.1 (omega (arith, lt)))

  block_at :
      (P : BlockHash → Type 0) (n i : ℕ)
      → All P (block_hashes p old n 0)
      → i < n
      → P (make_hash p i (block i))
  block_at P n i all lt =
      subst (λ k. P (make_hash p k (block k))) (omega arith) (at_block P n i 0 all lt)

  length-block :
      (i : ℕ) → 0 < block_size → i * block_size < length (old file_index) → 0 < length (block i)
  unfolding range_bytes
  length-block i pos lt = omega (
    arith,
    length-take (1 * block_size) (drop (i * block_size) (old file_index)),
    length-drop (i * block_size) (old file_index),
  )

  is_match_itself :
      (i : ℕ)
      → is_match unique_hash (block i) (short_size_of (block i)) (make_hash p i (block i)) ≡ true
  unfolding is_match
  is_match_itself i = ground (arith, bytes_equal_refl (unique_hash (block i)))

  in_count :
      (i size : ℕ)
      → 0 < block_size
      → i * block_size < size
      → i < (size + block_size - 1) / block_size
  in_count i size pos lt = (le-div_iff_mul-le pos).1 (omega (arith, lt))

  abbrev signed : List BlockHash
  signed = (create_signature p (old file_index) false).1.hashes

  abbrev own_bucket : ℕ → List BlockHash
  own_bucket i = with_weak_hash (beta_hash (block i)).beta signed

  abbrev Other : ℕ → BlockHash → Type 0
  Other i h = is_match unique_hash (block i) (short_size_of (block i)) h ≡ false

  -- The bucket of a block's weak hash has a hash that matches the block.
  own_bucket-matches :
      ((hashes : List BlockHash) (h : BlockHash) → p.accepts hashes h ≡ true)
      → ((k : ℕ) → p.canceled k ≡ false)
      → 0 < block_size
      → (i : ℕ) → i * block_size < length (old file_index)
      → All (Other i) (own_bucket i)
      → ⊥
  own_bucket-matches accepts going pos i lt all =
      let size = length (old file_index) in
      let n = num_blocks p old accepts going size in
      let key = (beta_hash (block i)).beta in
      let not_empty : (size == 0) ≡ false = ground (arith, lt) in
      let made : signed ≡ block_hashes p old n 0 =
        (create_signature-block_hashes p old accepts going pos).1
        ∙ ap (λ b. if b then make_hash p 0 [] ∷ [] else block_hashes p old n 0) not_empty in
      let here =
        block_at (λ h. h.weak_hash ≡ key → Other i h) n i
          (subst (All (λ h. h.weak_hash ≡ key → Other i h)) made
            (All-from_bucket (Other i) key signed all))
          (in_count i size pos lt) in
      absurd (ground (arith, here refl, is_match_itself i))

  -- If the writer takes every hash, the context is not done and the reader does not fail: in the
  -- library of a file's signature, the search for the bytes of each block of the file, under their
  -- weak hash and with their short size, finds a hash, whichever file is preferred.
  pub find_unique_hash-create_signature :
      ((hashes : List BlockHash) (h : BlockHash) → p.accepts hashes h ≡ true)
      → ((k : ℕ) → p.canceled k ≡ false)
      → 0 < block_size
      → (i : ℕ) (preferred : Option ℕ) → i * block_size < length (old file_index)
      → let library = new_block_library (create_signature p (old file_index) false).1.hashes in
        (bucket : List BlockHash) × (h : BlockHash) × (lookup (beta_hash (block i)).beta library
          ≡ some bucket)
        × (find_unique_hash unique_hash bucket (block i) (short_size_of (block i)) preferred
            ≡ some h)
  find_unique_hash-create_signature accepts going pos i preferred lt =
      let bytes = block i in
      let short = short_size_of bytes in
      let bucket = own_bucket i in
      elim (Option-cases (find_unique_hash unique_hash bucket bytes short preferred)) [
        | inr (h, e) ↦ (
          bucket,
          h,
          lookup-new_block_library (beta_hash bytes).beta signed
              ∙ bucket_there unique_hash bucket bytes short preferred h e,
          e,
        )
        | inl gone ↦ elim (find_unique_hash-none unique_hash bucket bytes short preferred gone) [
          | inl none_left ↦ absurd (omega (arith, length-block i pos lt, ap length none_left))
          | inr all ↦ absurd (own_bucket-matches accepts going pos i lt all)
        ]
      ]
