-- ===== src/Pwr/Overlay/Compare.antt =====
-- The comparison of one piece with the old file (`overlayProcessor.write` of pwr/overlay).
use wharf.Base.{
  ℕ, ◌+◌, ◌-◌, ◌≤◌, ◌≡◌, refl, sym, ap, ◌∙◌, Bool, true, Option, List, [], ◌∷◌, ◌++◌, append_assoc,
  arith, length, take, drop, length-append, length-drop, slice, Bool-cases, inl, inr, ltb, ==_eq,
  ◌==◌, take_all,
}
use mathlib.Core.Path.{subst}
use wharf.Pwr.Overlay.{
  OverlayOp, Record, OverlayError, OverlayWriter, Target, when, Sizes, Streams, write_fresh,
  write_skip, commit, write_tail, finish_block, compare_loop,
}
use wharf.Pwr.Overlay.Replay.{Coded, drop-more, drop-length-append, take-length-append}
use wharf.Pwr.Overlay.Emit.{Ends, seq-Ends, piece-Ends, write_skip-Ends}

module _ (sizes : Sizes) (io : Streams) (old : List ℕ) (works : Target → OverlayOp → Bool)
    (all : (rs : List Record) (r : Record) → io.accepts rs r ≡ true)
    (fine : (t : Target) (o : OverlayOp) → works t o ≡ true) (rest kept : List ℕ) where
  open sizes use {same_threshold}

  abbrev Now : OverlayWriter → List ℕ → Type 0
  Now = Coded old works rest kept

  abbrev Then : List ℕ → Option OverlayError × OverlayWriter → Type 0
  Then = Ends old works rest kept

  -- The place that the comparison has reached: `a` and `b` are done, and `e` is the streak.
  pub record Streak (buf w : List ℕ) (rs bs : List ℕ) (i same : ℕ) : Type 0 where
    pub new_done : List ℕ
    pub old_done : List ℕ
    pub streak : List ℕ
    pub more : List ℕ
    pub new_whole : buf ≡ new_done ++ (streak ++ bs)
    pub old_whole : drop (length w) old ≡ old_done ++ (streak ++ (rs ++ more))
    pub equal_length : length new_done ≡ length old_done
    pub streak_length : length streak ≡ same
    pub reached : i ≡ length new_done + length streak

  take-Streak :
      (buf w rs bs : List ℕ) (i same : ℕ) (k : Streak buf w rs bs i same)
      → take (i - same) buf ≡ k.new_done
  take-Streak buf w rs bs i same k =
      ap (λ n. take n buf) e
      ∙ ap (take (length k.new_done)) k.new_whole
      ∙ take-length-append k.new_done (k.streak ++ bs)
    where
      e : i - same ≡ length k.new_done
      e = omega (arith, k.reached, k.streak_length)

  take_all-Streak :
      (buf w rs bs : List ℕ) (i same : ℕ) (k : Streak buf w rs bs i same)
      → take i buf ≡ k.new_done ++ k.streak
  take_all-Streak buf w rs bs i same k =
      ap (λ n. take n buf) e
      ∙ ap (take (length (k.new_done ++ k.streak)))
          (k.new_whole ∙ sym (append_assoc k.new_done k.streak bs))
      ∙ take-length-append (k.new_done ++ k.streak) bs
    where
      e : i ≡ length (k.new_done ++ k.streak)
      e = omega (arith, k.reached, length-append k.new_done k.streak)

  drop-Streak :
      (buf w rs bs : List ℕ) (i same : ℕ) (k : Streak buf w rs bs i same)
      → drop (length (w ++ k.new_done)) old ≡ k.streak ++ (rs ++ k.more)
  drop-Streak buf w rs bs i same k =
      sym (drop-more old w k.new_done)
      ∙ ap (λ n. drop n (drop (length w) old)) k.equal_length
      ∙ ap (drop (length k.old_done)) k.old_whole
      ∙ drop-length-append k.old_done _

  commit-Ends :
      (buf w rs bs : List ℕ) (i last_op same : ℕ) (s : OverlayWriter)
      (k : Streak buf w rs bs i same)
      → last_op ≤ i - same
      → Now s (w ++ take last_op buf)
      → Then (w ++ take i buf) (commit sizes io buf i last_op same s)
  unfolding commit
  commit-Ends buf w rs bs i last_op same s k le v =
      seq-Ends sizes io old works all fine rest kept
        (when (ltb 0 (i - same - last_op)) (write_fresh sizes io (slice buf last_op (i - same))))
        (write_skip sizes io same) s (w ++ k.new_done) (w ++ take i buf)
        (subst
          (λ x. Then (w ++ x) (
            when (ltb 0 (i - same - last_op)) (write_fresh sizes io (slice buf last_op (i - same)))
              s))
          (take-Streak buf w rs bs i same k)
          (piece-Ends sizes io old works all fine rest kept buf last_op (i - same)
            (ltb 0 (i - same - last_op)) s w le (λ h. ground (arith, h)) v))
        (λ s v.
          rw
            (
              take_all-Streak buf w rs bs i same k,
              ← append_assoc w k.new_done k.streak,
              ← k.streak_length,
            )
            (write_skip-Ends sizes io old works all fine rest kept k.streak (rs ++ k.more) s
              (w ++ k.new_done) (drop-Streak buf w rs bs i same k) v))

  write_tail-Ends :
      (buf : List ℕ) (i last_op : ℕ) (s : OverlayWriter) (w : List ℕ)
      → last_op ≤ i
      → i ≤ length buf
      → Now s (w ++ take last_op buf)
      → Then (w ++ buf) (write_tail sizes io buf i last_op s)
  unfolding write_tail slice
  write_tail-Ends buf i last_op s w le le' v =
      seq-Ends sizes io old works all fine rest kept
        (when (ltb last_op i) (write_fresh sizes io (slice buf last_op i)))
        (when (ltb i (length buf)) (write_fresh sizes io (drop i buf))) s (w ++ take i buf)
        (w ++ buf)
        (piece-Ends sizes io old works all fine rest kept buf last_op i (ltb last_op i) s w le
          (λ h. ground (arith, h)) v)
        (λ s v.
          subst
            (λ x. Then (w ++ x) (when (ltb i (length buf)) (write_fresh sizes io (drop i buf)) s))
            (take_all (length buf) buf (omega arith))
            (subst
              (λ x.
                Then (w ++ take (length buf) buf)
                  (when (ltb i (length buf)) (write_fresh sizes io x) s))
              (take_all (length buf - i) (drop i buf) (omega (arith, length-drop i buf)))
              (piece-Ends sizes io old works all fine rest kept buf i (length buf)
                (ltb i (length buf)) s w le' (λ h. ground (arith, h)) v)))

  Streak-le : (buf w rs bs : List ℕ) (i same : ℕ) → Streak buf w rs bs i same → i ≤ length buf
  Streak-le buf w rs bs i same k = omega (
    arith,
    k.reached,
    ap (λ x. length x) k.new_whole,
    length-append k.new_done (k.streak ++ bs),
    length-append k.streak bs,
  )

  finish_block-Ends :
      (buf w rs bs : List ℕ) (i last_op same : ℕ) (s : OverlayWriter)
      (k : Streak buf w rs bs i same)
      → last_op ≤ i - same
      → Now s (w ++ take last_op buf)
      → Then (w ++ buf) (finish_block sizes io buf i last_op same s)
  unfolding finish_block
  finish_block-Ends buf w rs bs i last_op same s k le v =
      elim (Bool-cases (ltb same_threshold same)) [
        | inl h ↦ rw h (
            seq-Ends sizes io old works all fine rest kept (commit sizes io buf i last_op same)
              (write_tail sizes io buf i i) s (w ++ take i buf) (w ++ buf)
              (commit-Ends buf w rs bs i last_op same s k le v)
              (λ s v. write_tail-Ends buf i i s w (omega arith) (Streak-le buf w rs bs i same k) v))
        | inr h ↦
            rw h
              (write_tail-Ends buf i last_op s w (omega arith) (Streak-le buf w rs bs i same k) v)
      ]

  longer :
      (buf w rs bs : List ℕ) (r b i same : ℕ)
      → r ≡ b
      → Streak buf w (r ∷ rs) (b ∷ bs) i same
      → Streak buf w rs bs (i + 1) (same + 1)
  longer buf w rs bs r b i same e k = record {
    new_done = k.new_done;
    old_done = k.old_done;
    streak = k.streak ++ (b ∷ []);
    more = k.more;
    new_whole = k.new_whole ∙ ap (λ x. k.new_done ++ x) (sym (append_assoc k.streak (b ∷ []) bs));
    old_whole =
        k.old_whole
        ∙ ap (λ x. k.old_done ++ (k.streak ++ (x ∷ (rs ++ k.more)))) e
        ∙ ap (λ x. k.old_done ++ x) (sym (append_assoc k.streak (b ∷ []) (rs ++ k.more)));
    equal_length = k.equal_length;
    streak_length = omega (arith, k.streak_length, length-append k.streak (b ∷ []));
    reached = omega (arith, k.reached, length-append k.streak (b ∷ []));
  }

  broken_off :
      (buf w rs bs : List ℕ) (r b i same : ℕ)
      → Streak buf w (r ∷ rs) (b ∷ bs) i same
      → Streak buf w rs bs (i + 1) 0
  broken_off buf w rs bs r b i same k = record {
    new_done = k.new_done ++ (k.streak ++ (b ∷ []));
    old_done = k.old_done ++ (k.streak ++ (r ∷ []));
    streak = [];
    more = k.more;
    new_whole =
        k.new_whole
        ∙ ap (λ x. k.new_done ++ x) (sym (append_assoc k.streak (b ∷ []) bs))
        ∙ sym (append_assoc k.new_done (k.streak ++ (b ∷ [])) bs);
    old_whole =
        k.old_whole
        ∙ ap (λ x. k.old_done ++ x) (sym (append_assoc k.streak (r ∷ []) (rs ++ k.more)))
        ∙ sym (append_assoc k.old_done (k.streak ++ (r ∷ [])) (rs ++ k.more));
    equal_length = omega (
      arith,
      k.equal_length,
      length-append k.new_done (k.streak ++ (b ∷ [])),
      length-append k.old_done (k.streak ++ (r ∷ [])),
      length-append k.streak (r ∷ []),
      length-append k.streak (b ∷ []),
    );
    streak_length = refl;
    reached = omega (
      arith,
      k.reached,
      length-append k.new_done (k.streak ++ (b ∷ [])),
      length-append k.streak (b ∷ []),
    );
  }

  pub compare_loop-Ends :
      (buf w rs bs : List ℕ) (i last_op same : ℕ) (s : OverlayWriter)
      → Streak buf w rs bs i same
      → last_op ≤ i - same
      → Now s (w ++ take last_op buf)
      → Then (w ++ buf) (compare_loop sizes io buf rs bs i last_op same s)
  unfolding compare_loop
  compare_loop-Ends buf w [] bs i last_op same s k le v =
      finish_block-Ends buf w [] bs i last_op same s k le v
  compare_loop-Ends buf w (r ∷ rs) [] i last_op same s k le v =
      finish_block-Ends buf w (r ∷ rs) [] i last_op same s k le v
  compare_loop-Ends buf w (r ∷ rs) (b ∷ bs) i last_op same s k le v = elim (Bool-cases (r == b)) [
    | inl e ↦
        rw (compare_loop, e)
          (compare_loop-Ends buf w rs bs (i + 1) last_op (same + 1) s
            (longer buf w rs bs r b i same (==_eq r b e) k) (omega (arith, le)) v)
    | inr e ↦ elim (Bool-cases (ltb same_threshold same)) [
      | inl l ↦
          rw (compare_loop, e, l)
            (seq-Ends sizes io old works all fine rest kept (commit sizes io buf i last_op same)
              (compare_loop sizes io buf rs bs (i + 1) i 0) s (w ++ take i buf) (w ++ buf)
              (commit-Ends buf w (r ∷ rs) (b ∷ bs) i last_op same s k le v)
              (λ s v.
                compare_loop-Ends buf w rs bs (i + 1) i 0 s (broken_off buf w rs bs r b i same k)
                  (omega arith) v))
      | inr l ↦
          rw (compare_loop, e, l)
            (compare_loop-Ends buf w rs bs (i + 1) last_op 0 s (broken_off buf w rs bs r b i same k)
              (omega (arith, le)) v)
    ]
  ]
