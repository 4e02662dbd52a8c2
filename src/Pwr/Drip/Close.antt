-- ===== src/Pwr/Drip/Close.antt =====
-- A drip writer that is written to and closed (pwr/drip).
use wharf.Base.{
  concat, concat-snoc, All-snoc, ℕ, ◌+◌, ◌≤◌, ◌<◌, ◌≡◌, refl, sym, ap, ◌∙◌, Option, none, some,
  List, [], ◌∷◌, ◌++◌, Option-cases, inl, inr, append-nil, append_assoc, length, arith, All,
}
use mathlib.Core.Path.{subst}
use wharf.Pwr.Drip.{
  DripError, sink_failed, stuck, Sink, Writer, relay, write, write_all, close, close_sink,
}
use wharf.Pwr.Drip.Chunks.{relay_all, relay_all-snoc, Given, Broke, Follows, drip-Follows}

abbrev pub first_error : {E : Type 0} → Option E → Option E → Option E
first_error none e = e
first_error (some x) e = some x

-- An `io.Closer` is closed in any case, and its error counts where there is none before.
abbrev pub and_close : {S E : Type 0} → Option (S → Option E × S) → Option E × S → Option E × S
and_close none r = r
and_close (some shut) r = (first_error r.0 (shut r.1).0, (shut r.1).1)

one_error :
    {E : Type 0} (e e' : Option E)
    → elim e as (λ x. Option E) [ none ↦ e' | some x ↦ some x ] ≡ first_error e e'
one_error none e' = refl
one_error (some x) e' = refl

module _ {S E : Type 0} (len : ℕ) (k : Sink S E) where
  Broke-append :
      (s : S) (w : Writer S) (bytes more : List ℕ) (x : E)
      → Broke len k s w bytes x
      → Broke len k s w (bytes ++ more) x
  Broke-append s w bytes more x v = record {
    chunks = v.chunks;
    rest = v.rest ++ more;
    full = v.full;
    relayed = v.relayed;
    whole = sym (append_assoc (concat v.chunks) v.rest more) ∙ ap (λ y. y ++ more) v.whole;
  }

  continue :
      (pieces : List (List ℕ)) (s : S) (bytes : List ℕ) (e : Option (DripError E)) (w : Writer S)
      → Follows len k s bytes (e, w)
      → (Given len k s w bytes
          → Follows len k s (bytes ++ concat pieces) (write_all len k pieces w))
      → Follows len k s
          (bytes ++ concat pieces)
          (elim e [ some x ↦ (some x, w) | none ↦ write_all len k pieces w ])
  continue pieces s bytes none w v next = next v
  continue pieces s bytes (some stuck) w v next = absurd v
  continue pieces s bytes (some (sink_failed x)) w v next =
      Broke-append s w bytes (concat pieces) x v

  -- Writes of any size, behind bytes that the writer was given: if one fails, full chunks of the
  -- bytes were relayed, the last with the error. If none does, full chunks were relayed with no
  -- error, and the writer holds the rest back, less than a chunk. The loop does not run for ever.
  pub write_all-Follows :
      (pieces : List (List ℕ)) (s : S) (w : Writer S) (bytes : List ℕ)
      → Given len k s w bytes
      → Follows len k s (bytes ++ concat pieces) (write_all len k pieces w)
  unfolding write_all write
  write_all-Follows [] s w bytes v = subst (Given len k s w) (sym (append-nil bytes)) v
  write_all-Follows (piece ∷ pieces) s w bytes v =
      subst (λ x. Follows len k s x (write_all len k (piece ∷ pieces) w))
        (append_assoc bytes piece (concat pieces))
        (continue pieces s (bytes ++ piece) (write len k piece w).0 (write len k piece w).1
          (drip-Follows len k (length piece + 1) piece s w bytes (omega arith) v)
          (write_all-Follows pieces s (write len k piece w).1 (bytes ++ piece)))

  abbrev IsChunk : List ℕ → Type 0
  IsChunk c = (0 < length c) × (length c ≤ len)

  All-IsChunk : (cs : List (List ℕ)) → 0 < len → All (λ c. length c ≡ len) cs → All IsChunk cs
  All-IsChunk [] pos h = tt
  All-IsChunk (c ∷ cs) pos h = ((omega (arith, h.0), omega (arith, h.0)), All-IsChunk cs pos h.1)

  close-close_sink :
      (s : S) (buffer : List ℕ) (t : S) (bytes : List ℕ)
      → 0 < len
      → Given len k s (record { buffer = buffer; sink = t }) bytes
      → (chunks : List (List ℕ)) × (e : Option E) × (w : Writer S) × (concat chunks ≡ bytes)
        × All (λ c. (0 < length c) × (length c ≤ len)) chunks
        × (relay_all len k chunks s ≡ (e, w.sink))
        × (close len k (record { buffer = buffer; sink = t }) ≡ close_sink len k (e, w))
  unfolding close
  close-close_sink s [] t bytes pos v = (
    v.chunks,
    none,
    record { buffer = []; sink = t },
    sym (append-nil (concat v.chunks)) ∙ v.whole,
    All-IsChunk v.chunks pos v.full,
    v.relayed,
    refl,
  )
  close-close_sink s (b ∷ bs) t bytes pos v = (
    v.chunks ++ ((b ∷ bs) ∷ []),
    (relay len k (b ∷ bs) t).0,
    elim (relay len k (b ∷ bs) t).0 [
      | none ↦ record { buffer = []; sink = (relay len k (b ∷ bs) t).1 }
      | some x ↦ record { buffer = b ∷ bs; sink = (relay len k (b ∷ bs) t).1 }
    ],
    concat-snoc v.chunks (b ∷ bs) ∙ v.whole,
    All-snoc IsChunk v.chunks (b ∷ bs) (All-IsChunk v.chunks pos v.full)
        (omega arith, omega (arith, v.room)),
    relay_all-snoc len k v.chunks (b ∷ bs) s t v.relayed ∙ same (relay len k (b ∷ bs) t),
    refl,
  )
    where
      same :
          (r : Option E × S)
          → r ≡ (
            r.0,
            (elim r.0 as (λ x. Writer S) [
              | none ↦ record { buffer = []; sink = r.1 }
              | some x ↦ record { buffer = b ∷ bs; sink = r.1 }
            ]).sink,
          )
      same (none, s) = refl
      same (some x, s) = refl

  close_sink-and_close :
      (e : Option E) (w : Writer S)
      → ((close_sink len k (e, w)).0, (close_sink len k (e, w)).1.sink)
        ≡ and_close k.close (e, w.sink)
  unfolding close_sink
  close_sink-and_close e w = elim (Option-cases k.close) [
    | inl none_there ↦ rw (close_sink, none_there)
    | inr (shut, there) ↦
        rw (close_sink, there) (ap (λ x. (x, (shut w.sink).1)) (one_error e (shut w.sink).0))
  ]

  -- Closing a writer that was given bytes: they have been relayed in chunks, none empty and none
  -- longer than the buffer, up to the first error; then the underlying writer is closed if it can
  -- be, also behind an error, and the first of the two errors, if any, is returned.
  pub close-relay_all :
      (s : S) (buffer : List ℕ) (t : S) (bytes : List ℕ)
      → 0 < len
      → Given len k s (record { buffer = buffer; sink = t }) bytes
      → let (e, w) = close len k (record { buffer = buffer; sink = t }) in
        (chunks : List (List ℕ)) × (concat chunks ≡ bytes)
        × All (λ c. (0 < length c) × (length c ≤ len)) chunks
        × ((e, w.sink) ≡ and_close k.close (relay_all len k chunks s))
  close-relay_all s buffer t bytes pos v =
      let (chunks, e, w, whole, sized, relayed, closed) = close-close_sink s buffer t bytes pos v in
      (
        chunks,
        whole,
        sized,
        ap (λ r. (r.0, r.1.sink)) closed
            ∙ close_sink-and_close e w
            ∙ ap (and_close k.close) (sym relayed),
      )
