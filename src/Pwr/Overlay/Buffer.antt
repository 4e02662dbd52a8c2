-- ===== src/Pwr/Overlay/Buffer.antt =====
-- The buffer in front of the overlay writer (`bufio.Writer` in pwr/overlay), flushed and written to.
use wharf.Base.{
  ℕ, zero, suc, ◌+◌, ◌-◌, ◌*◌, ◌≤◌, ◌<◌, ◌≡◌, refl, sym, ap, ◌∙◌, Bool, true, false, Option, none,
  some, List, [], ◌++◌, append-nil, append_assoc, arith, length, take, drop, length-append,
  length-drop, min, take-append-drop, Bool-cases, inl, inr, ltb, ◌==◌, length-take, take_all,
  drop_all, nil_of_length, ==_eq,
}
use mathlib.Core.Path.{subst}
use wharf.Pwr.Overlay.{
  OverlayOp, Record, OverlayError, OverlayWriter, Target, Sizes, Streams, processor_write, flush,
  buffer_write,
}
use wharf.Pwr.Overlay.Replay.{Coded}
use wharf.Pwr.Overlay.Process.{Here, Processed, process-Processed}

module _ (sizes : Sizes) (old : List ℕ) (works : Target → OverlayOp → Bool) where
  -- What a writer has taken is coded, but for what it holds back.
  pub record Holds (s : OverlayWriter) (total : List ℕ) : Type 0 where
    pub behind : List ℕ
    pub whole : behind ++ s.buffered ≡ total
    pub room : length s.buffered ≤ sizes.buf_size
    pub coded : Here old works s.buffered s behind

module _ (sizes : Sizes) (io : Streams) (old : List ℕ) (works : Target → OverlayOp → Bool)
    (all : (rs : List Record) (r : Record) → io.accepts rs r ≡ true)
    (fine : (t : Target) (o : OverlayOp) → works t o ≡ true)
    (full : (rest : List ℕ) (n : ℕ) → io.read rest n ≡ some (min n (length rest)))
    (positive : 0 < sizes.buf_size) where
  open sizes use {buf_size}

  abbrev pub Flushed : List ℕ → Option OverlayError × OverlayWriter → Type 0
  Flushed total r = (r.0 ≡ none) × Here old works [] r.1 total × (r.1.buffered ≡ [])

  released :
      (s : OverlayWriter) (kept rest left w : List ℕ)
      → Coded old works rest kept s w
      → Coded old works rest left (record s { buffered = left }) w
  released s kept rest left w v = record {
    unread = v.unread;
    held = refl;
    offset = v.offset;
    replayed = v.replayed;
  }

  processor_write-Processed :
      (kept buf : List ℕ) (s : OverlayWriter) (w : List ℕ)
      → Here old works kept s w
      → Processed sizes old works kept buf w 0 (processor_write sizes io buf s)
  unfolding processor_write
  processor_write-Processed kept buf s w =
      process-Processed sizes io old works all fine full positive (length buf + 1) kept buf 0 s w
        (omega arith)

  pub flush-Flushed :
      (s : OverlayWriter) (total : List ℕ)
      → Holds sizes old works s total
      → Flushed total (flush sizes io s)
  unfolding flush
  flush-Flushed s total v = elim (Bool-cases (length s.buffered == 0)) [
    | inl e ↦
        rw (flush, e)
          (
            refl,
            subst (λ x. Here old works x s total) (empty e)
                (subst (Here old works s.buffered s)
                  (sym (append-nil v.behind) ∙ ap (λ x. v.behind ++ x) (sym (empty e)) ∙ v.whole)
                  v.coded),
            empty e,
          )
    | inr e ↦
        rw (flush, e, q.ok, all_taken)
          (
            refl,
            subst (λ x. Here old works x (record r.1.1 { buffered = drop r.1.0 s.buffered }) total)
                gone
                (released r.1.1 s.buffered (drop (length total) old) (drop r.1.0 s.buffered) total
                  (subst (Here old works s.buffered r.1.1) whole q.coded)),
            gone,
          )
  ]
    where
      empty : (length s.buffered == 0) ≡ true → s.buffered ≡ []
      empty e = nil_of_length s.buffered (==_eq (length s.buffered) 0 e)

      r : Option OverlayError × (ℕ × OverlayWriter)
      r = processor_write sizes io s.buffered s

      q : Processed sizes old works s.buffered s.buffered v.behind 0 r
      q = processor_write-Processed s.buffered s.buffered s v.behind v.coded

      full_length : r.1.0 ≡ length s.buffered
      full_length = q.whole v.room refl

      all_taken : ltb r.1.0 (length s.buffered) ≡ false
      all_taken = ground (arith, full_length)

      gone : drop r.1.0 s.buffered ≡ []
      gone = drop_all r.1.0 s.buffered (omega (arith, full_length))

      whole : v.behind ++ take (r.1.0 - 0) s.buffered ≡ total
      whole =
          ap (λ x. v.behind ++ x) (take_all (r.1.0 - 0) s.buffered (omega (arith, full_length)))
          ∙ v.whole

  abbrev pub Written : List ℕ → Option OverlayError × OverlayWriter → Type 0
  Written total r = (r.0 ≡ none) × Holds sizes old works r.1 total

  -- `p` joins what is held back, where there is room for it.
  joined :
      (p : List ℕ) (s : OverlayWriter) (total : List ℕ)
      → length s.buffered + length p ≤ buf_size
      → Holds sizes old works s total
      → Holds sizes old works (record s { buffered = s.buffered ++ p }) (total ++ p)
  joined p s total fits v = record {
    behind = v.behind;
    whole = sym (append_assoc v.behind s.buffered p) ∙ ap (λ x. x ++ p) v.whole;
    room = omega (arith, length-append s.buffered p, fits);
    coded = released s s.buffered _ (s.buffered ++ p) v.behind v.coded;
  }

  -- A long write goes past the empty buffer.
  passed :
      (p : List ℕ) (s : OverlayWriter) (total : List ℕ)
      → s.buffered ≡ []
      → Holds sizes old works s total
      → let r = processor_write sizes io p s in
        (r.0 ≡ none)
        × (r.1.1.buffered ≡ [])
        × (0 < length p → 0 < r.1.0)
        × (r.1.0 ≤ length p)
        × Holds sizes old works r.1.1 (total ++ take r.1.0 p)
  passed p s total empty v = (
    q.ok,
    gone,
    q.moves,
    omega (arith, q.bounded),
    record {
      behind = v.behind ++ take (r.1.0 - 0) p;
      whole =
          ap (λ x. (v.behind ++ take (r.1.0 - 0) p) ++ x) gone
          ∙ append-nil (v.behind ++ take (r.1.0 - 0) p)
          ∙ ap (λ x. x ++ take (r.1.0 - 0) p)
              (sym (append-nil v.behind) ∙ ap (λ x. v.behind ++ x) (sym empty) ∙ v.whole)
          ∙ ap (λ n. total ++ take n p) e;
      room = omega (arith, ap (λ x. length x) gone);
      coded =
          subst (λ x. Here old works x r.1.1 (v.behind ++ take (r.1.0 - 0) p)) (sym q.coded.held)
            q.coded;
    },
  )
    where
      r : Option OverlayError × (ℕ × OverlayWriter)
      r = processor_write sizes io p s

      q : Processed sizes old works s.buffered p v.behind 0 r
      q = processor_write-Processed s.buffered p s v.behind v.coded

      gone : r.1.1.buffered ≡ []
      gone = q.coded.held ∙ empty

      e : r.1.0 - 0 ≡ r.1.0
      e = omega arith

  Flushed-Holds :
      (r : Option OverlayError × OverlayWriter) (total : List ℕ)
      → Flushed total r
      → Holds sizes old works r.1 total
  Flushed-Holds r total v = record {
    behind = total;
    whole = ap (λ x. total ++ x) v.2 ∙ append-nil total;
    room = omega (arith, ap (λ x. length x) v.2);
    coded = subst (λ x. Here old works x r.1 total) (sym v.2) v.1;
  }

  in_two :
      (n : ℕ) (p total : List ℕ) (r : Option OverlayError × OverlayWriter)
      → Written ((total ++ take n p) ++ drop n p) r
      → Written (total ++ p) r
  in_two n p total r =
      subst (λ x. Written x r)
        (append_assoc total (take n p) (drop n p) ∙ ap (λ x. total ++ x) (take-append-drop n p))

  pub buffer_write-Written :
      (fuel : ℕ) (p : List ℕ) (s : OverlayWriter) (total : List ℕ)
      → 2 * length p + min 1 (length s.buffered) < fuel
      → Holds sizes old works s total
      → Written (total ++ p) (buffer_write sizes io fuel p s)
  unfolding buffer_write
  buffer_write-Written zero p s total h v = absurd (omega arith)
  buffer_write-Written (suc fuel) p s total h v =
      elim (Bool-cases (ltb (buf_size - length s.buffered) (length p))) [
        | inr l ↦ rw (buffer_write, l) (refl, joined p s total (ground (arith, v.room, l)) v)
        | inl l ↦ elim (Bool-cases (length s.buffered == 0)) [
          | inl e ↦
              let k = passed p s total (nil_of_length s.buffered (==_eq _ 0 e)) v in
              let r = processor_write sizes io p s in
              rw (buffer_write, l, e, k.0)
                (in_two r.1.0 p total _ (
                  buffer_write-Written fuel (drop r.1.0 p) r.1.1 (total ++ take r.1.0 p)
                    (ground (arith, l, e, positive, k.1, k.2, k.3, length-drop r.1.0 p)) k.4))
          | inr e ↦
              let n = buf_size - length s.buffered in
              let s' : OverlayWriter = record s { buffered = s.buffered ++ take n p } in
              let k =
                flush-Flushed s' (total ++ take n p)
                  (joined (take n p) s total (omega (arith, v.room, length-take n p)) v) in
              rw (buffer_write, l, e, k.0)
                (in_two n p total _ (
                  buffer_write-Written fuel (drop n p) (flush sizes io s').1 (total ++ take n p)
                    (ground (arith, e, k.2, length-drop n p)) (Flushed-Holds _ _ k)))
        ]
      ]
