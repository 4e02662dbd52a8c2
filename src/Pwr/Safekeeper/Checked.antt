-- ===== src/Pwr/Safekeeper/Checked.antt =====
-- What a `safeKeeper` (pwr/safekeeper.go) knows of the blocks that it has checked.
use wharf.Base.{
  ℕ, ◌*◌, ◌/◌, Option, none, some, List, [], ◌∷◌, All, ◌≡◌, refl, sym, ◌∙◌, ap, ==_refl, Bool-cases,
  Option-cases, inl, inr,
}
use mathlib.Core.Path.{subst}
use wharf.Pwr.BlockMath.{block_size}
use wharf.Pwr.Validate.{HashInfo, BlockError, block_size_of, validate_as_error}
use wharf.Pwr.Safekeeper.{
  SafeError, signature_failed, CheckedBlock, Inner, Reader, find_block, as_error,
  get_block_validator, restore, block_bytes, validate_read, check_block, validate_block, read_inner,
  read_checked,
}

find_block-first :
    (file block : ℕ) (e : Option SafeError) (cs : List CheckedBlock)
    → find_block file block (record { file_index = file; block_index = block; error = e } ∷ cs)
      ≡ some e
unfolding find_block
find_block-first file block e cs = rw (find_block, ==_refl file, ==_refl block)

module _ {W : Type 0} (unique_hash : List ℕ → List ℕ) (inner : Inner)
    (load : W → Option HashInfo × W) where
  -- The entry is what the validation of bytes read from the block's start returns.
  pub record IsGenuine (info : HashInfo) (c : CheckedBlock) : Type 0 where
    pub count : ℕ
    pub result : Option BlockError
    pub validated :
        validate_as_error unique_hash info c.file_index c.block_index
          (block_bytes unique_hash inner load c.file_index c.block_index count)
        ≡ some result
    pub kept : c.error ≡ as_error result

  -- Every entry is genuine, for the signature that the keeper has; without one there is none.
  abbrev pub Genuine : Option HashInfo → List CheckedBlock → Type 0
  Genuine none cs = cs ≡ []
  Genuine (some info) cs = All (IsGenuine info) cs

  abbrev pub IsChecked : Reader W → Type 0
  IsChecked r = Genuine r.keeper.block_validator r.keeper.valid_blocks

  -- The keeper has the block's validation, which found no error.
  abbrev pub IsValid : ℕ → ℕ → Reader W → Type 0
  IsValid file block r = find_block file block r.keeper.valid_blocks ≡ some none

  abbrev Safe : ℕ → ℕ → Option SafeError × Reader W → Type 0
  Safe file block r = IsChecked r.1 × (r.0 ≡ none → IsValid file block r.1)

  validate_read-Safe :
      (info : HashInfo) (block n : ℕ) (r : Reader W)
      → r.keeper.block_validator ≡ some info
      → IsChecked r
      → Safe r.file_index block (validate_read unique_hash inner load info block n r)
  unfolding validate_read restore find_block
  validate_read-Safe info block n r has v =
      elim (Option-cases (
        validate_as_error unique_hash info r.file_index block
          (block_bytes unique_hash inner load r.file_index block n))) [
            | inl e ↦ rw (validate_read, e) (v, λ h. absurd cc)
            | inr (x, e) ↦
                rw (validate_read, e)
                  (
                    subst
                        (λ o. Genuine o (
                          record {
                            file_index = r.file_index;
                            block_index = block;
                            error = as_error x;
                          }
                          ∷ r.keeper.valid_blocks))
                        (sym has)
                        (
                          record { count = n; result = x; validated = e; kept = refl },
                          subst (λ o. Genuine o r.keeper.valid_blocks) has v,
                        ),
                    λ h.
                        find_block-first r.file_index block (as_error x) r.keeper.valid_blocks
                        ∙ ap some h,
                  )
          ]

  check_block-Safe :
      (info : HashInfo) (block : ℕ) (r : Reader W)
      → r.keeper.block_validator ≡ some info
      → IsChecked r
      → Safe r.file_index block (check_block unique_hash inner load info block r)
  unfolding check_block restore
  check_block-Safe info block r has v =
      elim (Option-cases (block_size_of unique_hash info r.file_index block)) [
        | inl e ↦ rw (check_block, e) (v, λ h. absurd cc)
        | inr (size, e) ↦ elim (Bool-cases (inner.can_seek r.file_index (block * block_size))) [
          | inr e' ↦ rw (check_block, e, e') (v, λ h. absurd cc)
          | inl e' ↦ elim (Option-cases (inner.read r.file_index (block * block_size) size)) [
            | inl e'' ↦ rw (check_block, e, e', e'') (v, λ h. absurd cc)
            | inr (n, e'') ↦ rw (check_block, e, e', e'') (validate_read-Safe info block n r has v)
          ]
        ]
      ]

  abbrev with_validator : ℕ → Option HashInfo × Reader W → Option SafeError × Reader W
  with_validator block x = elim x.0 [
    | none ↦ (some signature_failed, x.1)
    | some info ↦ check_block unique_hash inner load info block x.1
  ]

  Genuine-first :
      (info : HashInfo) (b : Option HashInfo) (cs : List CheckedBlock)
      → b ≡ none
      → Genuine b cs
      → All (IsGenuine info) cs
  Genuine-first info none cs h v = subst (All (IsGenuine info)) (sym v) tt
  Genuine-first info (some x) cs h v = absurd cc

  with_validator-Safe :
      (block : ℕ) (r : Reader W)
      → IsChecked r
      → Safe r.file_index block
          (with_validator block (get_block_validator unique_hash inner load r))
  unfolding get_block_validator
  with_validator-Safe block r v = elim (Option-cases r.keeper.block_validator) [
    | inr (info, e) ↦ rw (get_block_validator, e) (check_block-Safe info block r e v)
    | inl e ↦ elim (Bool-cases r.keeper.sig_error) [
      | inl e' ↦ rw (get_block_validator, e, e') (v, λ h. absurd cc)
      | inr e' ↦ elim (Option-cases (load r.world).0) [
        | inl e'' ↦ rw (get_block_validator, e, e', e'') (v, λ h. absurd cc)
        | inr (info, e'') ↦
            rw (get_block_validator, e, e', e'')
              (check_block-Safe info block
                (record r {
                  keeper = record r.keeper { block_validator = some info };
                  world = (load r.world).1;
                })
                refl (Genuine-first info r.keeper.block_validator r.keeper.valid_blocks e v))
      ]
    ]
  ]

  validate_block-Safe :
      (r : Reader W)
      → IsChecked r
      → Safe r.file_index (r.offset / block_size) (validate_block unique_hash inner load r)
  unfolding validate_block
  validate_block-Safe r v =
      elim (Option-cases (find_block r.file_index (r.offset / block_size) r.keeper.valid_blocks)) [
        | inr (x, e) ↦ rw (validate_block, e) (v, λ h. e ∙ ap some h)
        | inl e ↦ rw (validate_block, e) (with_validator-Safe (r.offset / block_size) r v)
      ]

  abbrev then_read : ℕ → Option SafeError × Reader W → Option SafeError × List ℕ × Reader W
  then_read len x = elim x.0 [
    | some e ↦ (some e, [], x.1)
    | none ↦ read_inner unique_hash inner load len x.1
  ]

  then_read-Safe :
      (len file block : ℕ) (x : Option SafeError × Reader W)
      → Safe file block x
      → Safe file block ((then_read len x).0, (then_read len x).2)
  unfolding read_inner
  then_read-Safe len file block (some e, r) h = (h.0, λ h'. absurd cc)
  then_read-Safe len file block (none, r) h =
      elim (Option-cases (inner.read r.file_index r.pos len)) [
        | inl e ↦ rw (read_inner, e) (h.0, λ h'. absurd cc)
        | inr (n, e) ↦ rw (read_inner, e) (h.0, λ h'. h.1 refl)
      ]

  -- A read through a keeper whose entries are genuine: they still are, and if it reports no error,
  -- the block in which it began was read from its start and its hashes were those of the signature.
  pub read_checked-IsChecked :
      (len : ℕ) (r : Reader W)
      → IsChecked r
      → let (e, bytes, r') = read_checked unique_hash inner load len r in
        IsChecked r' × (e ≡ none → IsValid r.file_index (r.offset / block_size) r')
  unfolding read_checked
  read_checked-IsChecked len r v =
      then_read-Safe len r.file_index (r.offset / block_size)
        (validate_block unique_hash inner load r) (validate_block-Safe r v)
