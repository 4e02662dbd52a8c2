-- ===== src/Pwr/Overlay/Process.antt =====
-- How `overlayProcessor.Write` of pwr/overlay takes a piece of any length, block by block.
use wharf.Base.{
  ℕ, zero, suc, ◌+◌, ◌-◌, ◌≤◌, ◌<◌, ◌≡◌, refl, sym, ap, ◌∙◌, Bool, true, Option, none, some, List,
  [], ◌++◌, append-nil, append_assoc, arith, length, take, drop, length-append, length-drop,
  drop-drop, min, take-append-drop, take-append-take-drop, take-min, Bool-cases, inl, inr, ltb,
  length-take, drop_all, ltb→lt,
}
use mathlib.Core.Path.{subst}
use wharf.Pwr.Overlay.{
  OverlayOp, Record, OverlayError, OverlayWriter, Target, Sizes, Streams, patch_ops, process_block,
  process, compare_loop,
}
use wharf.Pwr.Overlay.Replay.{Coded, at}
use wharf.Pwr.Overlay.Emit.{Ends}
use wharf.Pwr.Overlay.Compare.{compare_loop-Ends}

module _ {ℓ} {A : Type ℓ} where
  drop-min : (n : ℕ) (xs : List A) → drop (min n (length xs)) xs ≡ drop n xs
  drop-min n xs = elim (Bool-cases (ltb n (length xs))) [
    | inl h ↦ ap (λ k. drop k xs) (ground arith)
    | inr h ↦ drop_all _ xs (ground arith) ∙ sym (drop_all n xs (ground arith))
  ]

  take_then :
      (n m : ℕ) (xs : List A) → take n xs ++ take m (drop n xs) ≡ take (length (take n xs) + m) xs
  take_then n m xs =
      rw (length-take n xs, ← take-min n xs, ← drop-min n xs)
        (take-append-take-drop (min n (length xs)) m xs)

module _ (old : List ℕ) (works : Target → OverlayOp → Bool) where
  -- The reader stands where the coded bytes end.
  abbrev pub Here : List ℕ → OverlayWriter → List ℕ → Type 0
  Here kept s w = Coded old works (drop (length w) old) kept s w

module _ (sizes : Sizes) (old : List ℕ) (works : Target → OverlayOp → Bool) where
  open sizes use {buf_size}

  -- What a run over `buf` leaves: the count of what it wrote, and that much of `buf` coded.
  pub record Processed (kept buf w : List ℕ) (written : ℕ)
      (r : Option OverlayError × (ℕ × OverlayWriter)) : Type 0 where
    pub ok : r.0 ≡ none
    pub grows : written ≤ r.1.0
    pub bounded : r.1.0 ≤ written + length buf
    pub moves : written < length buf → written < r.1.0
    pub whole : length buf ≤ buf_size → written ≡ 0 → r.1.0 ≡ length buf
    pub coded : Here old works kept r.1.1 (w ++ take (r.1.0 - written) buf)

module _ (sizes : Sizes) (io : Streams) (old : List ℕ) (works : Target → OverlayOp → Bool)
    (all : (rs : List Record) (r : Record) → io.accepts rs r ≡ true)
    (fine : (t : Target) (o : OverlayOp) → works t o ≡ true)
    (full : (rest : List ℕ) (n : ℕ) → io.read rest n ≡ some (min n (length rest)))
    (positive : 0 < sizes.buf_size) where
  open sizes use {buf_size}

  rest_after :
      (w buf : List ℕ)
      → drop (min (length buf) (length (drop (length w) old))) (drop (length w) old)
        ≡ drop (length (w ++ buf)) old
  rest_after w buf =
      drop-min (length buf) (drop (length w) old)
      ∙ drop-drop (length w) (length buf) old
      ∙ ap (λ n. drop n old) (sym (length-append w buf))

  process_block-Here :
      (kept buf : List ℕ) (s : OverlayWriter) (w : List ℕ)
      → Here old works kept s w
      → ((process_block sizes io buf s).0 ≡ none)
        × Here old works kept (process_block sizes io buf s).1 (w ++ buf)
  unfolding process_block
  process_block-Here kept buf s w v =
      rw (process_block, full s.rest (length buf), v.unread)
        (subst
          (λ x.
            Ends old works x kept (w ++ buf)
              (compare_loop sizes io buf (take n rest) buf 0 0 0 (record s { rest = drop n rest })))
          (rest_after w buf)
          (compare_loop-Ends sizes io old works all fine (drop n rest) kept buf w (take n rest) buf
            0 0 0 (record s { rest = drop n rest })
            (record {
              new_done = [];
              old_done = [];
              streak = [];
              more = drop n rest;
              new_whole = refl;
              old_whole = sym (take-append-drop n rest);
              equal_length = refl;
              streak_length = refl;
              reached = refl;
            })
            (omega arith)
            (record {
              unread = refl;
              held = v.held;
              offset = v.offset ∙ ap (λ x. length x) (sym (append-nil w));
              replayed = λ tail.
                  v.replayed tail ∙ ap (λ x. patch_ops works tail (at old x)) (sym (append-nil w));
            })))
    where
      rest : List ℕ
      rest = drop (length w) old

      n : ℕ
      n = min (length buf) (length rest)

  process_step :
      (kept buf w : List ℕ) (written : ℕ) (r : Option OverlayError × (ℕ × OverlayWriter))
      → written < length buf
      → Processed sizes old works kept
          (drop buf_size buf)
          (w ++ take buf_size buf)
          (written + length (take buf_size buf))
          r
      → Processed sizes old works kept buf w written r
  process_step kept buf w written r l q = record {
    ok = q.ok;
    grows = omega (arith, q.grows);
    bounded = omega (arith, q.bounded, lt, ld);
    moves = λ k. omega (arith, q.grows, lt);
    whole = λ k e. omega (arith, q.grows, q.bounded, lt, ld);
    coded =
        subst (Here old works kept r.1.1)
          (append_assoc w (take buf_size buf) _
            ∙ ap (λ x. w ++ x)
                (take_then buf_size (r.1.0 - (written + length (take buf_size buf))) buf
                  ∙ ap (λ n. take n buf) e))
          q.coded;
  }
    where
      lt : length (take buf_size buf) ≡ min buf_size (length buf)
      lt = length-take buf_size buf

      ld : length (drop buf_size buf) ≡ length buf - buf_size
      ld = length-drop buf_size buf

      e :
          length (take buf_size buf) + (r.1.0 - (written + length (take buf_size buf)))
          ≡ r.1.0 - written
      e = omega (arith, q.grows)

  pub process-Processed :
      (fuel : ℕ) (kept buf : List ℕ) (written : ℕ) (s : OverlayWriter) (w : List ℕ)
      → length buf < fuel
      → Here old works kept s w
      → Processed sizes old works kept buf w written (process sizes io fuel buf written s)
  unfolding process
  process-Processed zero kept buf written s w h v = absurd (omega arith)
  process-Processed (suc fuel) kept buf written s w h v =
      elim (Bool-cases (ltb written (length buf))) [
        | inl l ↦
            rw (process, l, (process_block-Here kept (take buf_size buf) s w v).0)
              (process_step kept buf w written _ (ltb→lt written (length buf) l) (
                process-Processed fuel kept (drop buf_size buf)
                  (written + length (take buf_size buf))
                  (process_block sizes io (take buf_size buf) s).1 (w ++ take buf_size buf)
                  (omega (arith, ltb→lt written (length buf) l, length-drop buf_size buf))
                  (process_block-Here kept (take buf_size buf) s w v).1))
        | inr l ↦
            rw (process, l)
              (record {
                ok = refl;
                grows = omega arith;
                bounded = omega arith;
                moves = λ k. ground arith;
                whole = λ k e. ground arith;
                coded =
                    subst (Here old works kept s) (sym (ap (λ n. w ++ take n buf) e ∙ append-nil w))
                      v;
              })
      ]
    where
      e : written - written ≡ 0
      e = omega arith
