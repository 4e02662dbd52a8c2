-- ===== src/Wsync/Library/Lookup.antt =====
-- What the library holds under a weak hash.
use wharf.Base.{
  ℕ, ◌≡◌, refl, sym, ◌∙◌, ap, Option, none, some, List, [], ◌∷◌, ◌++◌, append_assoc, ◌==◌,
  if◌then◌else◌, arith, All, Bool-cases, inl, inr,
}
use mathlib.Core.Path.{subst}
use wharf.Wsync.Types.{BlockHash}
use wharf.Wsync.Library.{HashLookup, lookup, add_hash, add_hashes, new_block_library}

-- The hashes of a list that have one weak hash, in their order.
unfoldable pub with_weak_hash : ℕ → List BlockHash → List BlockHash
with_weak_hash key [] = []
with_weak_hash key (h ∷ hs) =
    let rest = with_weak_hash key hs in if h.weak_hash == key then h ∷ rest else rest

lookup-add_hash :
    (key : ℕ) (h : BlockHash) (m : HashLookup)
    → lookup key (add_hash h m) ≡ (
        if h.weak_hash == key
        then some (elim (lookup key m) [ none ↦ h ∷ [] | some hs ↦ hs ++ (h ∷ []) ])
        else lookup key m)
unfolding lookup add_hash
lookup-add_hash key h [] = ground arith
lookup-add_hash key h ((k, hs) ∷ m) = ground (arith, lookup-add_hash key h m)

-- A bucket with more hashes at its end.
abbrev pub extend : Option (List BlockHash) → List BlockHash → Option (List BlockHash)
extend o [] = o
extend none (h ∷ hs) = some (h ∷ hs)
extend (some old) (h ∷ hs) = some (old ++ h ∷ hs)

extend-extend :
    (o : Option (List BlockHash)) (h : BlockHash) (hs : List BlockHash)
    → extend (extend o (h ∷ [])) hs ≡ extend o (h ∷ hs)
extend-extend none h [] = refl
extend-extend none h (k ∷ hs) = refl
extend-extend (some old) h [] = refl
extend-extend (some old) h (k ∷ hs) = ap some (append_assoc old (h ∷ []) (k ∷ hs))

extend-snoc :
    (key : ℕ) (h : BlockHash) (m : HashLookup)
    → lookup key (add_hash h m) ≡ extend (lookup key m) (with_weak_hash key (h ∷ []))
unfolding with_weak_hash
extend-snoc key h m = ground (arith, lookup-add_hash key h m)

lookup-add_hashes :
    (key : ℕ) (m : HashLookup) (hs : List BlockHash)
    → lookup key (add_hashes m hs) ≡ extend (lookup key m) (with_weak_hash key hs)
unfolding add_hashes with_weak_hash
lookup-add_hashes key m [] = refl
lookup-add_hashes key m (h ∷ hs) = ground (
  arith,
  lookup-add_hashes key (add_hash h m) hs,
  extend-snoc key h m,
  extend-extend (lookup key m) h (with_weak_hash key hs),
)

-- The library holds under a weak hash exactly the given hashes that have it, in the given order,
-- and has no bucket where there are none.
pub lookup-new_block_library :
    (key : ℕ) (hashes : List BlockHash)
    → lookup key (new_block_library hashes) ≡ extend none (with_weak_hash key hashes)
unfolding new_block_library lookup
lookup-new_block_library key hashes = lookup-add_hashes key [] hashes

-- What holds of all hashes holds of those in every bucket.
All-with_weak_hash {ℓ} :
    (P : BlockHash → Type ℓ) (key : ℕ) (hashes : List BlockHash)
    → All P hashes
    → All P (with_weak_hash key hashes)
unfolding with_weak_hash
All-with_weak_hash P key [] h = h
All-with_weak_hash P key (x ∷ xs) h = elim (Bool-cases (x.weak_hash == key)) [
  | inl e ↦ rw e (h.0, All-with_weak_hash P key xs h.1)
  | inr e ↦ rw e (All-with_weak_hash P key xs h.1)
]

All-extend {ℓ} :
    (P : BlockHash → Type ℓ) (hs : List BlockHash) {found : List BlockHash}
    → All P hs
    → extend none hs ≡ some found
    → All P found
All-extend P [] h e = absurd (cc)
All-extend P (x ∷ xs) {found} h e = let p : x ∷ xs ≡ found = cc in subst (All P) p h

pub All-lookup {ℓ} :
    (P : BlockHash → Type ℓ) (key : ℕ) (hashes : List BlockHash) {found : List BlockHash}
    → All P hashes
    → lookup key (new_block_library hashes) ≡ some found
    → All P found
All-lookup P key hashes h e =
    All-extend P (with_weak_hash key hashes) (All-with_weak_hash P key hashes h)
      (sym (lookup-new_block_library key hashes) ∙ e)
