-- ===== src/Pwr/Bowl/Ghosts/Order.antt =====
-- The order in which `deleteGhosts` (pwr/bowl/bowl_overlay.go) removes.
use wharf.Base.{
  ◌≤◌, true, false, List, [], ◌∷◌, ◌++◌, length, length-append, All-map, All-perm, AllPairs,
  AllPairs-map, Permᴰ, ◌≡◌, refl, ap, arith, Bool-cases, inl, inr,
}
use mathlib.Core.List.Permᴰ
use wharf.Pwr.Bowl.{FilePath}
use wharf.Pwr.Bowl.Ghosts.{Ghost, less, insert, sort}

abbrev NotShorter : Ghost → Ghost → Type 0
NotShorter g h = length h.path ≤ length g.path

insert-perm : (g : Ghost) (hs : List Ghost) → Permᴰ (g ∷ hs) (insert g hs)
unfolding insert
insert-perm g [] = Permᴰ.refl (g ∷ [])
insert-perm g (h ∷ hs) = elim (Bool-cases (less h g)) [
  | inl e ↦ rw (insert, e) (Permᴰ.trans (Permᴰ.swap refl refl) (Permᴰ.cons refl (insert-perm g hs)))
  | inr e ↦ rw (insert, e) (Permᴰ.refl (g ∷ h ∷ hs))
]

less-NotShorter : (g h : Ghost) → less h g ≡ true → NotShorter h g
unfolding less
less-NotShorter g h e = ground (arith, e)

not_less-NotShorter : (g h : Ghost) → less h g ≡ false → NotShorter g h
unfolding less
not_less-NotShorter g h e = ground (arith, e)

insert-AllPairs :
    (g : Ghost) (hs : List Ghost) → AllPairs NotShorter hs → AllPairs NotShorter (insert g hs)
unfolding insert
insert-AllPairs g [] h = (tt, tt)
insert-AllPairs g (h ∷ hs) v = elim (Bool-cases (less h g)) [
  | inl e ↦
      rw (insert, e)
        (
          All-perm (NotShorter h) (insert-perm g hs) (less-NotShorter g h e, v.0),
          insert-AllPairs g hs v.1,
        )
  | inr e ↦
      rw (insert, e)
        (
          (
            not_less-NotShorter g h e,
            All-map (NotShorter h) (NotShorter g) hs
                (λ k le. omega (arith, le, not_less-NotShorter g h e)) v.0,
          ),
          v,
        )
]

sort-AllPairs : (gs : List Ghost) → AllPairs NotShorter (sort gs)
unfolding sort
sort-AllPairs [] = tt
sort-AllPairs (g ∷ gs) = insert-AllPairs g (sort gs) (sort-AllPairs gs)

sort-perm : (gs : List Ghost) → Permᴰ gs (sort gs)
unfolding sort
sort-perm [] = Permᴰ.refl []
sort-perm (g ∷ gs) = Permᴰ.trans (Permᴰ.cons refl (sort-perm gs)) (insert-perm g (sort gs))

-- The first is inside the folder that is the second.
abbrev pub Inside : Ghost → Ghost → Type 0
Inside h g = (rest : FilePath) × (h.path ≡ g.path ++ (47 ∷ rest))

NotShorter-Inside : (g h : Ghost) → NotShorter g h → Inside h g → ⊥
NotShorter-Inside g h le (rest, e) =
    absurd (omega (arith, le, ap length e, length-append g.path (47 ∷ rest)))

-- The ghosts are all there, and no ghost is removed before one that is inside it: a folder that
-- goes is empty of ghosts by then.
pub sort-Inside_first :
    (gs : List Ghost) → Permᴰ gs (sort gs) × AllPairs (λ g h. Inside h g → ⊥) (sort gs)
sort-Inside_first gs = (
  sort-perm gs,
  AllPairs-map NotShorter (λ g h. Inside h g → ⊥) (sort gs) NotShorter-Inside (sort-AllPairs gs),
)
