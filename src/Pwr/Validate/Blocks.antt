-- ===== src/Pwr/Validate/Blocks.antt =====
-- The two checks of a block, compared (pwr/blockvalidator.go).
use wharf.Base.{
  ℕ, ◌≡◌, refl, Option, none, some, List, get_elem?, ◌==◌, bytes_equal, Bool-cases, Option-cases,
  inl, inr, ==_eq, ==_refl, bytes_equal→eq, bytes_equal_refl, ◌↔◌, arith,
}
use wharf.Wsync.Types.{BlockHash}
use wharf.Wsync.Rolling.{beta_hash}
use wharf.Pwr.BlockMath.{compute_block_size}
use wharf.Pwr.Wounds.{WoundKind, file, closed_file}
use wharf.Pwr.Validate.{
  HashInfo, File, BlockError, find_group, block_wound, block_size_of, validate_as_wound,
  validate_as_error, too_large, weak_hash_differs, strong_hash_differs,
}

abbrev pub kind_of : Option BlockError → WoundKind
kind_of none = closed_file
kind_of (some e) = file

module _ (unique_hash : List ℕ → List ℕ) (info : HashInfo) where
  -- For a file of the container, both checks of a block answer, the wound is over the block, and is
  -- a healthy one just where there is no error.
  pub validate_as_wound-as_error :
      (file_index block_index : ℕ) (bytes : List ℕ) (f : File)
      → get_elem? info.files file_index ≡ some f
      → (e : Option BlockError) × (validate_as_error unique_hash info file_index block_index bytes
          ≡ some e)
        × (validate_as_wound unique_hash info file_index block_index bytes
            ≡ some (
                block_wound file_index block_index
                  (kind_of e)
                  (compute_block_size f.size block_index)))
  unfolding validate_as_error validate_as_wound
  validate_as_wound-as_error file_index block_index bytes f h =
      elim (Option-cases (get_elem? (find_group info.groups file_index) block_index)) [
        | inl g ↦
            rw (validate_as_error, validate_as_wound, block_size_of, h, g)
              (some too_large, refl, refl)
        | inr (bh, g) ↦ elim (Bool-cases (bh.weak_hash == (beta_hash bytes).beta)) [
          | inr w ↦
              rw (validate_as_error, validate_as_wound, block_size_of, h, g, w)
                (some weak_hash_differs, refl, refl)
          | inl w ↦ elim (Bool-cases (bytes_equal bh.strong_hash (unique_hash bytes))) [
            | inr s ↦
                rw (validate_as_error, validate_as_wound, block_size_of, h, g, w, s)
                  (some strong_hash_differs, refl, refl)
            | inl s ↦
                rw (validate_as_error, validate_as_wound, block_size_of, h, g, w, s)
                  (none, refl, refl)
          ]
        ]
      ]

  -- For a file of the container, there is no error just where the file's group has a hash at the
  -- index, and both its hashes are those of the bytes.
  pub validate_as_error-none :
      (file_index block_index : ℕ) (bytes : List ℕ) (f : File)
      → get_elem? info.files file_index ≡ some f
      → (validate_as_error unique_hash info file_index block_index bytes ≡ some none) ↔ (
          (bh : BlockHash) × (get_elem? (find_group info.groups file_index) block_index ≡ some bh)
          × (bh.weak_hash ≡ (beta_hash bytes).beta)
          × (bh.strong_hash ≡ unique_hash bytes))
  unfolding validate_as_error
  validate_as_error-none file_index block_index bytes f h = (to, from)
    where
      to :
          validate_as_error unique_hash info file_index block_index bytes ≡ some none
          → (bh : BlockHash) × (get_elem? (find_group info.groups file_index) block_index ≡ some bh)
            × (bh.weak_hash ≡ (beta_hash bytes).beta)
            × (bh.strong_hash ≡ unique_hash bytes)
      to e = elim (Option-cases (get_elem? (find_group info.groups file_index) block_index)) [
        | inl g ↦ absurd (ground arith)
        | inr (bh, g) ↦ (bh, g, ==_eq _ _ (ground arith), bytes_equal→eq _ _ (ground arith))
      ]

      from :
          ((bh : BlockHash) × (get_elem? (find_group info.groups file_index) block_index ≡ some bh)
            × (bh.weak_hash ≡ (beta_hash bytes).beta)
            × (bh.strong_hash ≡ unique_hash bytes))
          → validate_as_error unique_hash info file_index block_index bytes ≡ some none
      from (bh, g, w, s) =
          rw
            (
              validate_as_error,
              h,
              g,
              w,
              s,
              ==_refl (beta_hash bytes).beta,
              bytes_equal_refl (unique_hash bytes),
            )
            refl
