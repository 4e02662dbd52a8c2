-- ===== src/Pwr/Drip/Chunks.antt =====
-- The chunks that the Write of a drip writer relays (pwr/drip).
use wharf.Base.{
  concat, concat-snoc, All-snoc, ℕ, zero, suc, ◌+◌, ◌-◌, ◌<◌, ◌≡◌, refl, sym, ap, ◌∙◌, Option, none,
  some, List, [], ◌∷◌, ◌++◌, append-nil, append_assoc, length, take, drop, min, length-append,
  length-take, length-drop, take-append-drop, ◌==◌, Bool-cases, Option-cases, inl, inr, arith,
  ==_eq, All,
}
use mathlib.Core.Path.{subst}
use wharf.Pwr.Drip.{DripError, sink_failed, stuck, Sink, Writer, relay, drip}

module _ {S E : Type 0} (len : ℕ) (k : Sink S E) where
  -- To relay chunks one by one, until one fails.
  unfoldable pub relay_all : List (List ℕ) → S → Option E × S
  relay_all [] s = (none, s)
  relay_all (c ∷ cs) s =
      let (e, s') = relay len k c s in elim e [ some x ↦ (some x, s') | none ↦ relay_all cs s' ]

  -- A writer that has been given `bytes`: it has relayed full chunks with no error, and holds back
  -- less than one.
  pub record Given (s : S) (w : Writer S) (bytes : List ℕ) : Type 0 where
    pub chunks : List (List ℕ)
    pub full : All (λ c. length c ≡ len) chunks
    pub relayed : relay_all chunks s ≡ (none, w.sink)
    pub whole : concat chunks ++ w.buffer ≡ bytes
    pub room : length w.buffer < len

  -- A writer that failed: it relayed full chunks of the bytes, the last with the error.
  pub record Broke (s : S) (w : Writer S) (bytes : List ℕ) (x : E) : Type 0 where
    pub chunks : List (List ℕ)
    pub rest : List ℕ
    pub full : All (λ c. length c ≡ len) chunks
    pub relayed : relay_all chunks s ≡ (some x, w.sink)
    pub whole : concat chunks ++ rest ≡ bytes

  abbrev pub Follows : S → List ℕ → Option (DripError E) × Writer S → Type 0
  Follows s bytes (none, w) = Given s w bytes
  Follows s bytes (some stuck, w) = ⊥
  Follows s bytes (some (sink_failed x), w) = Broke s w bytes x

  pub relay_all-snoc :
      (cs : List (List ℕ)) (c : List ℕ) (s t : S)
      → relay_all cs s ≡ (none, t)
      → relay_all (cs ++ (c ∷ [])) s ≡ relay len k c t
  unfolding relay_all
  relay_all-snoc [] c s t h = one (relay len k c s) ∙ ap (λ x. relay len k c x.1) h
    where
      one : (r : Option E × S) → elim r.0 [ some x ↦ (some x, r.1) | none ↦ (none, r.1) ] ≡ r
      one (none, s) = refl
      one (some x, s) = refl
  relay_all-snoc (d ∷ cs) c s t h = elim (Option-cases (relay len k d s).0) [
    | inl e ↦ rw (relay_all, e) (relay_all-snoc cs c (relay len k d s).1 t (rw (relay_all, e) at h))
    | inr (x, e) ↦ absurd (ground (arith, h, e))
  ]

  abbrev filled : ℕ → List ℕ → Writer S → List ℕ
  filled n bs w = w.buffer ++ take n bs

  -- A piece fits, and more may follow.
  keep-Given :
      (n : ℕ) (bs : List ℕ) (s : S) (w : Writer S) (bytes : List ℕ)
      → length (filled n bs w) < len
      → Given s w bytes
      → Given s (record w { buffer = filled n bs w }) (bytes ++ take n bs)
  keep-Given n bs s w bytes h v = record {
    chunks = v.chunks;
    full = v.full;
    relayed = v.relayed;
    whole =
        sym (append_assoc (concat v.chunks) w.buffer (take n bs))
        ∙ ap (λ x. x ++ take n bs) v.whole;
    room = h;
  }

  -- A full chunk is relayed.
  relay-Given :
      (n : ℕ) (bs : List ℕ) (s t : S) (w : Writer S) (bytes : List ℕ)
      → length (filled n bs w) ≡ len
      → relay len k (filled n bs w) w.sink ≡ (none, t)
      → Given s w bytes
      → Given s (record { buffer = []; sink = t }) (bytes ++ take n bs)
  relay-Given n bs s t w bytes h e v = record {
    chunks = v.chunks ++ (filled n bs w ∷ []);
    full = All-snoc (λ c. length c ≡ len) v.chunks (filled n bs w) v.full h;
    relayed = relay_all-snoc v.chunks (filled n bs w) s w.sink v.relayed ∙ e;
    whole =
        append-nil (concat (v.chunks ++ (filled n bs w ∷ [])))
        ∙ concat-snoc v.chunks (filled n bs w)
        ∙ sym (append_assoc (concat v.chunks) w.buffer (take n bs))
        ∙ ap (λ x. x ++ take n bs) v.whole;
    room = omega (arith, v.room);
  }

  relay-Broke :
      (n : ℕ) (bs : List ℕ) (s t : S) (w : Writer S) (bytes : List ℕ) (x : E)
      → length (filled n bs w) ≡ len
      → relay len k (filled n bs w) w.sink ≡ (some x, t)
      → Given s w bytes
      → Broke s (record { buffer = filled n bs w; sink = t }) (bytes ++ bs) x
  relay-Broke n bs s t w bytes x h e v = record {
    chunks = v.chunks ++ (filled n bs w ∷ []);
    rest = drop n bs;
    full = All-snoc (λ c. length c ≡ len) v.chunks (filled n bs w) v.full h;
    relayed = relay_all-snoc v.chunks (filled n bs w) s w.sink v.relayed ∙ e;
    whole =
        ap (λ y. y ++ drop n bs)
          (concat-snoc v.chunks (filled n bs w)
            ∙ sym (append_assoc (concat v.chunks) w.buffer (take n bs))
            ∙ ap (λ x. x ++ take n bs) v.whole)
        ∙ append_assoc bytes (take n bs) (drop n bs)
        ∙ ap (λ y. bytes ++ y) (take-append-drop n bs);
  }

  pub drip-Follows :
      (fuel : ℕ) (bs : List ℕ) (s : S) (w : Writer S) (bytes : List ℕ)
      → length bs < fuel
      → Given s w bytes
      → Follows s (bytes ++ bs) (drip len k fuel bs w)
  unfolding drip
  drip-Follows zero bs s w bytes h v = absurd (omega arith)
  drip-Follows (suc fuel) [] s w bytes h v = subst (Given s w) (sym (append-nil bytes)) v
  drip-Follows (suc fuel) (b ∷ bs) s w bytes h v = elim (Bool-cases (length buffer == len)) [
    | inr l ↦
        rw (drip, l)
          (subst
            (λ x. Follows s x (drip len k fuel (drop n (b ∷ bs)) (record w { buffer = buffer })))
            whole
            (drip-Follows fuel (drop n (b ∷ bs)) s (record w { buffer = buffer })
              (bytes ++ take n (b ∷ bs)) shorter
              (keep-Given n (b ∷ bs) s w bytes (ground (arith, l, size, v.room)) v)))
    | inl l ↦ elim (Option-cases (relay len k buffer w.sink).0) [
      | inl e ↦
          rw (drip, l, e)
            (subst
              (λ x.
                Follows s x (drip len k fuel (drop n (b ∷ bs)) (record { buffer = []; sink = t })))
              whole
              (drip-Follows fuel (drop n (b ∷ bs)) s (record { buffer = []; sink = t })
                (bytes ++ take n (b ∷ bs)) shorter
                (relay-Given n (b ∷ bs) s t w bytes (==_eq (length buffer) len l)
                  (ap (λ x. (x, t)) e) v)))
      | inr (x, e) ↦
          rw (drip, l, e)
            (relay-Broke n (b ∷ bs) s t w bytes x (==_eq (length buffer) len l) (ap (λ x. (x, t)) e)
              v)
    ]
  ]
    where
      n : ℕ
      n = min (length (b ∷ bs)) (len - length w.buffer)

      buffer : List ℕ
      buffer = w.buffer ++ take n (b ∷ bs)

      t : S
      t = (relay len k buffer w.sink).1

      size : length buffer ≡ length w.buffer + min n (length (b ∷ bs))
      size = omega (arith, length-append w.buffer (take n (b ∷ bs)), length-take n (b ∷ bs))

      shorter : length (drop n (b ∷ bs)) < fuel
      shorter = omega (arith, length-drop n (b ∷ bs), v.room)

      whole : (bytes ++ take n (b ∷ bs)) ++ drop n (b ∷ bs) ≡ bytes ++ (b ∷ bs)
      whole =
          append_assoc bytes (take n (b ∷ bs)) (drop n (b ∷ bs))
          ∙ ap (λ x. bytes ++ x) (take-append-drop n (b ∷ bs))
