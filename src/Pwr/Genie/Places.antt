-- ===== src/Pwr/Genie/Places.antt =====
-- Where each byte of an origin comes from, and what splitting an origin does to it (pwr/genie).
use wharf.Base.{
  All-snoc, ℕ, zero, suc, ◌+◌, ◌-◌, ◌*◌, ◌≤◌, ◌<◌, ◌≡◌, refl, sym, ap, ◌∙◌, Option, none, some,
  List, [], ◌∷◌, ◌++◌, append-nil, append_assoc, length, length-append, nil_of_length, ltb, All,
  Bool-cases, inl, inr, arith,
}
use mathlib.Core.Path.{subst}
use wharf.Pwr.BlockMath.{block_size}
use wharf.Pwr.Genie.{
  SyncOp, block_range, fresh_data, hey_you_did_it, Origin, block_origin, fresh_origin, get_size,
  Composition, first_part, rest_part, Analysis, next_block, put, Result, analyzed, split,
}

-- Where a byte comes from: an offset of an old file, or the patch.
pub data Place : Type 0 where
  old_byte : ℕ → ℕ → Place
  fresh_byte : Place

abbrev pub places_from : ℕ → ℕ → ℕ → List Place
places_from file offset zero = []
places_from file offset (suc n) = old_byte file offset ∷ places_from file (offset + 1) n

abbrev pub fresh_places : ℕ → List Place
fresh_places zero = []
fresh_places (suc n) = fresh_byte ∷ fresh_places n

abbrev pub places : Origin → List Place
places (block_origin file offset size) = places_from file offset size
places (fresh_origin size) = fresh_places size

abbrev pub all_places : List Origin → List Place
all_places [] = []
all_places (o ∷ os) = places o ++ all_places os

abbrev pub listed_places : List Composition → List Place
listed_places [] = []
listed_places (c ∷ cs) = all_places c.origins ++ listed_places cs

-- What the genie counts the operations of a file for, up to the delimiter, if there is one. A range
-- counts as whole blocks, while `ApplySingleFull` copies less where the last one is short.
abbrev pub op_places : List SyncOp → Option (List Place)
op_places [] = none
op_places (block_range file block span ∷ ops) = elim (op_places ops) [
  | none ↦ none
  | some ps ↦ some (places_from file (block * block_size) (span * block_size) ++ ps)
]
op_places (fresh_data d ∷ ops) = elim (op_places ops) [
  | none ↦ none
  | some ps ↦ some (fresh_places (length d) ++ ps)
]
op_places (hey_you_did_it ∷ ops) = some []

places_from-add :
    (file offset a b : ℕ)
    → places_from file offset (a + b) ≡ places_from file offset a ++ places_from file (offset + a) b
places_from-add file offset zero b =
    ap (λ n. places_from file offset n) e ∙ ap (λ n. places_from file n b) e'
  where
    e : 0 + b ≡ b
    e = omega arith

    e' : offset ≡ offset + 0
    e' = omega arith
places_from-add file offset (suc a) b =
    ap (places_from file offset) e
    ∙ ap (λ x. old_byte file offset ∷ x)
        (places_from-add file (offset + 1) a b
          ∙ ap (λ n. places_from file (offset + 1) a ++ places_from file n b) e')
  where
    e : suc a + b ≡ suc (a + b)
    e = omega arith

    e' : offset + 1 + a ≡ offset + suc a
    e' = omega arith

fresh_places-add : (a b : ℕ) → fresh_places (a + b) ≡ fresh_places a ++ fresh_places b
fresh_places-add zero b = ap fresh_places (omega arith)
fresh_places-add (suc a) b = ap fresh_places e ∙ ap (λ x. fresh_byte ∷ x) (fresh_places-add a b)
  where
    e : suc a + b ≡ suc (a + b)
    e = omega arith

places-split :
    (n : ℕ) (o : Origin)
    → n ≤ get_size o
    → places (first_part n o) ++ places (rest_part n o) ≡ places o
places-split n (block_origin file offset size) h =
    sym (places_from-add file offset n (size - n)) ∙ ap (places_from file offset) (omega arith)
places-split n (fresh_origin size) h =
    sym (fresh_places-add n (size - n)) ∙ ap fresh_places (omega arith)

length-places_from : (file offset n : ℕ) → length (places_from file offset n) ≡ n
length-places_from file offset zero = refl
length-places_from file offset (suc n) = ap suc (length-places_from file (offset + 1) n)

length-fresh_places : (n : ℕ) → length (fresh_places n) ≡ n
length-fresh_places zero = refl
length-fresh_places (suc n) = ap suc (length-fresh_places n)

length-places : (o : Origin) → length (places o) ≡ get_size o
length-places (block_origin file offset size) = length-places_from file offset size
length-places (fresh_origin size) = length-fresh_places size

size_first : (n : ℕ) (o : Origin) → get_size (first_part n o) ≡ n
size_first n (block_origin file offset size) = refl
size_first n (fresh_origin size) = refl

size_rest : (n : ℕ) (o : Origin) → get_size (rest_part n o) ≡ get_size o - n
size_rest n (block_origin file offset size) = refl
size_rest n (fresh_origin size) = refl

all_places-append : (xs ys : List Origin) → all_places (xs ++ ys) ≡ all_places xs ++ all_places ys
all_places-append [] ys = refl
all_places-append (x ∷ xs) ys =
    ap (λ t. places x ++ t) (all_places-append xs ys)
    ∙ sym (append_assoc (places x) (all_places xs) (all_places ys))

pub listed_places-append :
    (xs ys : List Composition) → listed_places (xs ++ ys) ≡ listed_places xs ++ listed_places ys
listed_places-append [] ys = refl
listed_places-append (x ∷ xs) ys =
    ap (λ t. all_places x.origins ++ t) (listed_places-append xs ys)
    ∙ sym (append_assoc (all_places x.origins) (listed_places xs) (listed_places ys))

module _ (big_block_size : ℕ) where
  -- A block that is full, of the size that its origins have.
  abbrev pub IsFull : Composition → Type 0
  IsFull c = (c.size ≡ big_block_size) × (length (all_places c.origins) ≡ c.size)

module _ (big_block_size : ℕ) (positive : 0 < big_block_size) where
  pub record Inv (a : Analysis) (total : List Place) : Type 0 where
    pub whole : listed_places a.listed ++ all_places a.comp.origins ≡ total
    pub sized : length (all_places a.comp.origins) ≡ a.comp.size
    pub fits : a.comp.size ≤ big_block_size
    pub full : All (IsFull big_block_size) a.listed

  put-Inv :
      (o : Origin) (a : Analysis) (total : List Place)
      → a.comp.size + get_size o ≤ big_block_size
      → Inv a total
      → Inv (put o a) (total ++ places o)
  put-Inv o a total h v = record {
    whole =
        ap (λ x. listed_places a.listed ++ x) e
        ∙ sym (append_assoc (listed_places a.listed) (all_places a.comp.origins) (places o))
        ∙ ap (λ x. x ++ places o) v.whole;
    sized =
        ap (λ x. length x) e
        ∙ omega
            (arith, length-append (all_places a.comp.origins) (places o), v.sized, length-places o);
    fits = h;
    full = v.full;
  }
    where
      e : all_places (a.comp.origins ++ (o ∷ [])) ≡ all_places a.comp.origins ++ places o
      e =
          all_places-append a.comp.origins (o ∷ [])
          ∙ ap (λ x. all_places a.comp.origins ++ x) (append-nil (places o))

  next_block-Inv :
      (a : Analysis) (total : List Place)
      → a.comp.size ≡ big_block_size
      → Inv a total
      → Inv (next_block a) total
  next_block-Inv a total h v = record {
    whole =
        append-nil (listed_places (a.listed ++ (a.comp ∷ [])))
        ∙ listed_places-append a.listed (a.comp ∷ [])
        ∙ ap (λ x. listed_places a.listed ++ x) (append-nil (all_places a.comp.origins))
        ∙ v.whole;
    sized = refl;
    fits = omega arith;
    full = All-snoc (IsFull big_block_size) a.listed a.comp v.full (h, v.sized);
  }

  abbrev Ends : List Place → Result → Type 0
  Ends total r = (a : Analysis) × (r ≡ analyzed a) × Inv a total

  pub split-Inv :
      (fuel : ℕ) (o : Origin) (a : Analysis) (total : List Place)
      → 2 * get_size o + (1 - (big_block_size - a.comp.size)) < fuel
      → Inv a total
      → Ends (total ++ places o) (split big_block_size fuel o a)
  unfolding split
  split-Inv zero o a total h v = absurd (omega arith)
  split-Inv (suc fuel) o a total h v =
      elim (Bool-cases (ltb big_block_size (a.comp.size + get_size o))) [
        | inr l ↦ elim (Bool-cases (ltb 0 (get_size o))) [
          | inl z ↦ rw (split, l, z) (put o a, refl, put-Inv o a total (ground (arith, l)) v)
          | inr z ↦
              rw (split, l, z)
                (
                  a,
                  refl,
                  subst (Inv a)
                      (sym (append-nil total)
                        ∙ ap (λ x. total ++ x)
                            (sym (nil_of_length (places o) (ground (arith, z, length-places o)))))
                      v,
                )
        ]
        | inl l ↦ elim (Bool-cases (ltb 0 (big_block_size - a.comp.size))) [
          | inl t ↦
              let n = big_block_size - a.comp.size in
              rw (split, l, t)
                (subst
                  (λ x. Ends x (
                    split big_block_size fuel (rest_part n o)
                      (next_block (put (first_part n o) a))))
                  (append_assoc total (places (first_part n o)) (places (rest_part n o))
                    ∙ ap (λ x. total ++ x) (places-split n o (ground (arith, l))))
                  (split-Inv fuel (rest_part n o) (next_block (put (first_part n o) a))
                    (total ++ places (first_part n o))
                    (ground (arith, l, t, v.fits, positive, size_rest n o))
                    (next_block-Inv (put (first_part n o) a) _
                      (omega (arith, v.fits, size_first n o))
                      (put-Inv (first_part n o) a total (omega (arith, size_first n o, v.fits))
                        v))))
          | inr t ↦
              rw (split, l, t)
                (split-Inv fuel o (next_block a) total (ground (arith, l, t, v.fits, positive))
                  (next_block-Inv a total (ground (arith, t, v.fits)) v))
        ]
      ]
