-- ===== src/Pwr/Validate/Groups.antt =====
-- How many hashes `ComputeHashInfo` of pwr/hashinfo.go wants.
use wharf.Base.{
  ℕ, ◌+◌, ◌≡◌, refl, List, [], ◌∷◌, length, ltb, ◌==◌, if◌then◌else◌, Bool-cases, inl, inr, ==_eq,
  ◌↔◌, arith,
}
use wharf.Wsync.Types.{BlockHash}
use wharf.Pwr.BlockMath.{compute_num_blocks}
use wharf.Pwr.Validate.{
  File, SignatureInfo, HashInfo, HashInfoError, Outcome, failed, grouped, group_files,
  compute_hash_info, path_to_file_index,
}

-- How many hashes a signature has for a file, and for all.
abbrev pub hash_count : File → ℕ
hash_count f = if f.size == 0 then 1 else compute_num_blocks f.size

abbrev pub total_count : List File → ℕ
total_count [] = 0
total_count (f ∷ fs) = hash_count f + total_count fs

abbrev pub IsGrouped : Outcome → Type 0
IsGrouped o = (info : HashInfo) × (o ≡ grouped info)

IsGrouped-ne-failed : {e : HashInfoError} → ¬ IsGrouped (failed e)
IsGrouped-ne-failed (info, h) = absurd (cc)

same_sum :
    {o : Outcome} {n : ℕ} (x y : ℕ) → x ≡ y → (IsGrouped o ↔ (x ≡ n)) → (IsGrouped o ↔ (y ≡ n))
same_sum x y e h = rw (← e) h

module _ (sig : SignatureInfo) where
  group_files-count :
      (m : List (List ℕ × ℕ)) (fs : List File) (k : ℕ) (groups : List (ℕ × List BlockHash))
      → IsGrouped (group_files sig m fs k groups) ↔ (k + total_count fs ≡ length sig.hashes)
  unfolding group_files
  group_files-count m [] k groups = elim (Bool-cases (k == length sig.hashes)) [
    | inl e ↦
        rw (group_files, e)
          (
            λ x. omega (arith, ==_eq k (length sig.hashes) e),
            λ x. (record { files = sig.files; groups = groups }, refl),
          )
    | inr e ↦
        rw (group_files, e) (λ x. absurd (IsGrouped-ne-failed x), λ x. absurd (ground (arith, e)))
  ]
  group_files-count m (f ∷ fs) k groups = elim (Bool-cases (f.size == 0)) [
    | inl z ↦
        rw (group_files, z)
          (same_sum (k + 1 + total_count fs) _ (omega arith)
            (group_files-count m fs (k + 1) groups))
    | inr z ↦
        elim (Bool-cases
          (ltb (length sig.hashes + length sig.spare) (k + compute_num_blocks f.size))) [
            | inl l ↦
                rw (group_files, z, l)
                  (λ x. absurd (IsGrouped-ne-failed x), λ x. absurd (ground (arith, l)))
            | inr l ↦
                rw (group_files, z, l)
                  (same_sum (k + compute_num_blocks f.size + total_count fs) _ (omega arith)
                    (group_files-count m fs (k + compute_num_blocks f.size) _))
          ]
  ]

  -- The grouping succeeds just where the signature has as many hashes as its files want.
  pub compute_hash_info-count :
      IsGrouped (compute_hash_info sig) ↔ (total_count sig.files ≡ length sig.hashes)
  unfolding compute_hash_info
  compute_hash_info-count =
      same_sum (0 + total_count sig.files) _ (omega arith)
        (group_files-count (path_to_file_index sig.files 0 []) sig.files 0 [])
