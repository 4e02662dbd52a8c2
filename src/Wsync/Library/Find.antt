-- ===== src/Wsync/Library/Find.antt =====
-- What a search of a bucket finds.
use wharf.Base.{
  ℕ, ◌≡◌, ◌⊎◌, refl, Bool, true, false, ◌&&◌, Option, none, some, List, [], ◌∷◌, ◌==◌, arith, All,
  Bool-cases, Option-cases, ap, inl, inr, bytes_equal→eq, length, ◌<◌,
}
use mathlib.Core.Path.{subst}
use wharf.Wsync.Types.{BlockHash}
use wharf.Wsync.Library.{find_first, or_else, is_match, find_preferred, find_unique_hash}

find_first-passes {ℓ} :
    (P : BlockHash → Type ℓ) (test : BlockHash → Bool) (hh : List BlockHash) {h : BlockHash}
    → All P hh
    → find_first test hh ≡ some h
    → P h × (test h ≡ true)
unfolding find_first
find_first-passes P test [] a e = absurd (cc)
find_first-passes P test (x ∷ xs) {h} a e = elim (Bool-cases (test x)) [
  | inl t ↦ let p : x ≡ h = ground arith in subst (λ y. P y × (test y ≡ true)) p (a.0, t)
  | inr t ↦ find_first-passes P test xs a.1 (ground arith)
]

find_first-none :
    (test : BlockHash → Bool) (hh : List BlockHash)
    → find_first test hh ≡ none
    → All (λ h. test h ≡ false) hh
unfolding find_first
find_first-none test [] e = tt
find_first-none test (x ∷ xs) e = elim (Bool-cases (test x)) [
  | inl t ↦ absurd (ground arith)
  | inr t ↦ (t, find_first-none test xs (ground arith))
]

All-Unit : (hh : List BlockHash) → All (λ k. Unit {0}) hh
All-Unit [] = tt
All-Unit (x ∷ xs) = (tt, All-Unit xs)

or_else-cases :
    (first second : Option BlockHash) {h : BlockHash}
    → or_else first second ≡ some h
    → (first ≡ some h) ⊎ ((first ≡ none) × (second ≡ some h))
or_else-cases none second e = inr (refl, e)
or_else-cases (some block) second e = inl e

or_else-none : (first second : Option BlockHash) → or_else first second ≡ none → second ≡ none
or_else-none none second e = e
or_else-none (some block) second e = absurd (cc)

module _ (unique_hash : List ℕ → List ℕ) where
  -- What the search promises of a hash that it returns, for any `P` that the whole bucket has.
  pub record Found {ℓ} (P : BlockHash → Type ℓ) (bytes : List ℕ) (short_size : ℕ) (h : BlockHash)
      : Type ℓ where
    pub holds : P h
    pub short : h.short_size ≡ short_size
    pub strong : h.strong_hash ≡ unique_hash bytes
    pub nonempty : 0 < length bytes

  is_match-fields :
      (bytes : List ℕ) (short_size : ℕ) (h : BlockHash)
      → is_match unique_hash bytes short_size h ≡ true
      → (h.short_size ≡ short_size) × (h.strong_hash ≡ unique_hash bytes)
  unfolding is_match
  is_match-fields bytes short_size h e =
      (ground arith, bytes_equal→eq h.strong_hash (unique_hash bytes) (ground arith))

  module _ {ℓ} (P : BlockHash → Type ℓ) (hh : List BlockHash) (a : All P hh) where
    in_first_loop :
        (b : ℕ) (bs : List ℕ) (short_size : ℕ) (preferred : Option ℕ) {h : BlockHash}
        → find_preferred unique_hash hh (b ∷ bs) short_size preferred ≡ some h
        → P h × (is_match unique_hash (b ∷ bs) short_size h ≡ true)
    in_first_loop b bs short_size none e = absurd (cc)
    in_first_loop b bs short_size (some file) e =
        let (p, t) = find_first-passes P _ hh a e in (p, ground arith)

    found :
        (b : ℕ) (bs : List ℕ) (short_size : ℕ) {h : BlockHash}
        → P h × (is_match unique_hash (b ∷ bs) short_size h ≡ true)
        → Found P (b ∷ bs) short_size h
    found b bs short_size {h} (p, t) =
        let (short, strong) = is_match-fields (b ∷ bs) short_size h t in
        record { holds = p; short = short; strong = strong; nonempty = omega arith }

    -- A returned hash is one of the bucket, has the short size asked for and the strong hash of
    -- the bytes, and the bytes are not empty.
    pub find_unique_hash-Found :
        (bytes : List ℕ) (short_size : ℕ) (preferred : Option ℕ) {h : BlockHash}
        → find_unique_hash unique_hash hh bytes short_size preferred ≡ some h
        → Found P bytes short_size h
    unfolding find_unique_hash
    find_unique_hash-Found [] short_size preferred e = absurd (cc)
    find_unique_hash-Found (b ∷ bs) short_size preferred e = elim (or_else-cases _ _ e) [
      | inl first ↦ found b bs short_size (in_first_loop b bs short_size preferred first)
      | inr (_, second) ↦ found b bs short_size (find_first-passes P _ hh a second)
    ]

  -- No hash is returned only if there are no bytes, or no hash of the bucket has their strong hash
  -- and the short size.
  pub find_unique_hash-none :
      (hh : List BlockHash) (bytes : List ℕ) (short_size : ℕ) (preferred : Option ℕ)
      → find_unique_hash unique_hash hh bytes short_size preferred ≡ none
      → (bytes ≡ []) ⊎ All (λ h. is_match unique_hash bytes short_size h ≡ false) hh
  unfolding find_unique_hash
  find_unique_hash-none hh [] short_size preferred e = inl refl
  find_unique_hash-none hh (b ∷ bs) short_size preferred e =
      inr (find_first-none _ hh (or_else-none _ _ e))

  abbrev preferred_test : ℕ → List ℕ → ℕ → ℕ → BlockHash → Bool
  preferred_test b bs short_size file k =
      k.file_index == file && is_match unique_hash (b ∷ bs) short_size k

  -- For bytes that are not empty, a search that prefers a file returns a hash of that file, which
  -- has the strong hash of the bytes and the short size, unless no hash of the bucket does.
  pub find_unique_hash-prefers :
      (hh : List BlockHash) (bytes : List ℕ) (short_size file : ℕ)
      → 0 < length bytes
      → ((h : BlockHash) × (find_unique_hash unique_hash hh bytes short_size (some file) ≡ some h)
          × (h.file_index ≡ file)
          × (h.short_size ≡ short_size)
          × (h.strong_hash ≡ unique_hash bytes))
        ⊎ All (λ k. (k.file_index == file && is_match unique_hash bytes short_size k) ≡ false) hh
  unfolding find_unique_hash
  find_unique_hash-prefers hh [] short_size file pos = absurd (omega arith)
  find_unique_hash-prefers hh (b ∷ bs) short_size file pos =
      let test = preferred_test b bs short_size file in
      elim (Option-cases (find_first test hh)) [
        | inl gone ↦ inr (find_first-none test hh gone)
        | inr (h, e) ↦
            let (_, t) = find_first-passes (λ k. Unit {0}) test hh (All-Unit hh) e in
            let same_file : h.file_index ≡ file = ground arith in
            let match : is_match unique_hash (b ∷ bs) short_size h ≡ true = ground arith in
            let (short, strong) = is_match-fields (b ∷ bs) short_size h match in
            inl (
              h,
              ap (λ x. or_else x (find_first (is_match unique_hash (b ∷ bs) short_size) hh)) e,
              same_file,
              short,
              strong,
            )
      ]
