-- ===== src/Pwr/Overlay/Replay.antt =====
-- The messages of an overlay, patched over the old file as far as they go (pwr/overlay).
use wharf.Base.{
  ℕ, ◌+◌, ◌-◌, ◌≡◌, refl, sym, ap, ◌∙◌, Bool, List, [], ◌∷◌, ◌++◌, append_assoc, arith, length,
  take, drop, length-append, drop-drop,
}
use wharf.Pwr.Overlay.{OverlayOp, Record, OverlayWriter, Target, overwrite, patch, patch_ops}

module _ {ℓ} {A : Type ℓ} where
  pub drop-length-append : (xs ys : List A) → drop (length xs) (xs ++ ys) ≡ ys
  drop-length-append [] ys = refl
  drop-length-append (x ∷ xs) ys = drop-length-append xs ys

  pub take-length-append : (xs ys : List A) → take (length xs) (xs ++ ys) ≡ xs
  take-length-append [] ys = refl
  take-length-append (x ∷ xs) ys = ap (λ t. x ∷ t) (take-length-append xs ys)

module _ (old : List ℕ) where
  -- The old file with `w` over its start, and the position behind `w`.
  abbrev pub at : List ℕ → Target
  at w = record { content = w ++ drop (length w) old; pos = length w }

  -- Behind the messages of a writer, the patched file has `w` over its start. What the writer has
  -- not read and holds back is `rest` and `kept`.
  pub record Coded (works : Target → OverlayOp → Bool) (rest kept : List ℕ) (s : OverlayWriter)
      (w : List ℕ) : Type 0 where
    pub unread : s.rest ≡ rest
    pub held : s.buffered ≡ kept
    pub offset : s.read_offset ≡ length w
    pub replayed :
        (tail : List Record)
        → patch works (s.records ++ tail) (record { content = old; pos = 0 })
          ≡ patch_ops works tail (at w)

  pub drop-more :
      (w x : List ℕ) → drop (length x) (drop (length w) old) ≡ drop (length (w ++ x)) old
  drop-more w x =
      drop-drop (length w) (length x) old ∙ ap (λ n. drop n old) (sym (length-append w x))

  overwrite-rest :
      (w d : List ℕ)
      → drop (length w + length d) (w ++ drop (length w) old) ≡ drop (length (w ++ d)) old
  overwrite-rest w d =
      sym (drop-drop (length w) (length d) (w ++ drop (length w) old))
      ∙ ap (drop (length d)) (drop-length-append w (drop (length w) old))
      ∙ drop-more w d

  overwrite-gap : (w : List ℕ) → length w - length (w ++ drop (length w) old) ≡ 0
  overwrite-gap w = omega (arith, length-append w (drop (length w) old))

  pub overwrite-at : (w d : List ℕ) → overwrite d (at w) ≡ at (w ++ d)
  unfolding overwrite
  overwrite-at w d =
      rw
        (
          overwrite-gap w,
          overwrite-rest w d,
          take-length-append w (drop (length w) old),
          length-append w d,
          append_assoc w d,
        )
        refl

  pub skip-at :
      (w e more : List ℕ)
      → drop (length w) old ≡ e ++ more
      → record (at w) { pos = length w + length e } ≡ at (w ++ e)
  skip-at w e more h =
      rw (← drop-more w e, length-append w e, append_assoc w e, h, drop-length-append e more) refl
