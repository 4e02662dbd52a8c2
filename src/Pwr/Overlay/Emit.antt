-- ===== src/Pwr/Overlay/Emit.antt =====
-- What one message, or two in a row, add to an overlay (pwr/overlay).
use wharf.Base.{
  ℕ, ◌-◌, ◌≤◌, ◌≡◌, refl, sym, ap, ◌∙◌, Bool, true, false, Option, none, some, List, [], ◌∷◌, ◌++◌,
  append_assoc, arith, length, take, drop, length-append, slice, take-append-take-drop,
}
use mathlib.Core.Path.{subst}
use wharf.Pwr.Overlay.{
  OverlayOp, skip, fresh, Record, op, OverlayError, OverlayWriter, Target, patch, after, ◌>>◌, Step,
  when, Sizes, Streams, write_message, write_fresh, write_skip, patch_ops,
}
use wharf.Pwr.Overlay.Replay.{Coded, at, overwrite-at, skip-at}

module _ (old : List ℕ) (works : Target → OverlayOp → Bool) where
  -- A step that ended with no error, behind which the overlay stands for `w`.
  abbrev pub Ends : List ℕ → List ℕ → List ℕ → Option OverlayError × OverlayWriter → Type 0
  Ends rest kept w r = (r.0 ≡ none) × Coded old works rest kept r.1 w

module _ (sizes : Sizes) (io : Streams) (old : List ℕ) (works : Target → OverlayOp → Bool)
    (all : (rs : List Record) (r : Record) → io.accepts rs r ≡ true)
    (fine : (t : Target) (o : OverlayOp) → works t o ≡ true) (rest kept : List ℕ) where
  open sizes use {same_threshold}

  abbrev Now : OverlayWriter → List ℕ → Type 0
  Now = Coded old works rest kept

  abbrev Then : List ℕ → Option OverlayError × OverlayWriter → Type 0
  Then = Ends old works rest kept

  pub after-Ends :
      (e : Option OverlayError) (k : Step) (s : OverlayWriter) (w w' : List ℕ)
      → Then w (e, s)
      → ((s : OverlayWriter) → Now s w → Then w' (k s))
      → Then w' (after e k s)
  after-Ends none k s w w' h next = next s h.1
  after-Ends (some e) k s w w' h next = absurd (cc)

  pub seq-Ends :
      (m k : Step) (s : OverlayWriter) (w w' : List ℕ)
      → Then w (m s)
      → ((s : OverlayWriter) → Now s w → Then w' (k s))
      → Then w' ((m >> k) s)
  seq-Ends m k s w w' = after-Ends (m s).0 k (m s).1 w w'

  pub write_fresh-Ends :
      (d : List ℕ) (s : OverlayWriter) (w : List ℕ)
      → Now s w
      → Then (w ++ d) (write_fresh sizes io d s)
  unfolding write_fresh write_message patch_ops
  write_fresh-Ends d s w v = rw (all s.records (op (fresh d))) (
    refl,
    record {
      unread = v.unread;
      held = v.held;
      offset = omega (arith, v.offset, length-append w d);
      replayed = λ tail.
          ap (λ t. patch works t (record { content = old; pos = 0 }))
            (append_assoc s.records (op (fresh d) ∷ []) tail)
          ∙ v.replayed (op (fresh d) ∷ tail)
          ∙ rw (patch_ops, fine (at old w) (fresh d))
              (ap (patch_ops works tail) (overwrite-at old w d));
    },
  )

  pub write_skip-Ends :
      (e more : List ℕ) (s : OverlayWriter) (w : List ℕ)
      → drop (length w) old ≡ e ++ more
      → Now s w
      → Then (w ++ e) (write_skip sizes io (length e) s)
  unfolding write_skip write_message patch_ops
  write_skip-Ends e more s w h v = rw (all s.records (op (skip (length e)))) (
    refl,
    record {
      unread = v.unread;
      held = v.held;
      offset = omega (arith, v.offset, length-append w e);
      replayed = λ tail.
          ap (λ t. patch works t (record { content = old; pos = 0 }))
            (append_assoc s.records (op (skip (length e)) ∷ []) tail)
          ∙ v.replayed (op (skip (length e)) ∷ tail)
          ∙ rw (patch_ops, fine (at old w) (skip (length e)))
              (ap (patch_ops works tail) (skip-at old w e more h));
    },
  )

  -- The bytes of a piece up to `to`, where those up to `from` are coded.
  pub piece-Ends :
      (buf : List ℕ) (from to : ℕ) (c : Bool) (s : OverlayWriter) (w : List ℕ)
      → from ≤ to
      → (c ≡ false → to ≡ from)
      → Now s (w ++ take from buf)
      → Then (w ++ take to buf) (when c (write_fresh sizes io (slice buf from to)) s)
  unfolding slice
  piece-Ends buf from to true s w le h v =
      subst (λ x. Then x (write_fresh sizes io (slice buf from to) s)) e
        (write_fresh-Ends (slice buf from to) s (w ++ take from buf) v)
    where
      e : (w ++ take from buf) ++ slice buf from to ≡ w ++ take to buf
      e =
          append_assoc w (take from buf) (slice buf from to)
          ∙ ap (λ x. w ++ x)
              (take-append-take-drop from (to - from) buf ∙ ap (λ n. take n buf) (omega arith))
  piece-Ends buf from to false s w le h v =
      (refl, subst (λ n. Now s (w ++ take n buf)) (sym (h refl)) v)
