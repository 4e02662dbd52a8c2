-- ===== src/Pwr/Overlay/RoundTrip.antt =====
-- An overlay, written in pieces of any size and patched over the old file (pwr/overlay).
use wharf.Base.{
  concat, ℕ, ◌+◌, ◌*◌, ◌<◌, ◌≡◌, refl, sym, Bool, true, Option, none, some, List, [], ◌∷◌, ◌++◌,
  append-nil, append_assoc, arith, length, drop, min,
}
use mathlib.Core.Path.{subst}
use wharf.Pwr.Overlay.{
  OverlayOp, skip, Record, magic, header, op, hey_you_did_it, overlay_magic, OverlayError,
  OverlayWriter, Target, after, ◌>>◌, Sizes, Streams, write_message, patch, patch_ops, flush, write,
  write_all, finalize, new_overlay_writer,
}
use wharf.Pwr.Overlay.Buffer.{Holds, flush-Flushed, buffer_write-Written}

-- A writer from the start of both files, given the pieces, and finalized.
unfoldable pub write_overlay :
    Sizes → Streams → List ℕ → List (List ℕ) → Option OverlayError × OverlayWriter
unfolding new_overlay_writer write_all finalize
write_overlay sizes io old pieces =
    let (e, w) = new_overlay_writer sizes io old 0 0 in
    after e (write_all sizes io pieces >> finalize sizes io) w

module _ (sizes : Sizes) (io : Streams) (old : List ℕ) (works : Target → OverlayOp → Bool)
    (all : (rs : List Record) (r : Record) → io.accepts rs r ≡ true)
    (fine : (t : Target) (o : OverlayOp) → works t o ≡ true)
    (full : (rest : List ℕ) (n : ℕ) → io.read rest n ≡ some (min n (length rest)))
    (positive : 0 < sizes.buf_size) where
  open sizes use {buf_size}

  abbrev Written : List ℕ → Option OverlayError × OverlayWriter → Type 0
  Written total r = (r.0 ≡ none) × Holds sizes old works r.1 total

  seq-Written :
      (e : Option OverlayError) (k : OverlayWriter → Option OverlayError × OverlayWriter)
      (s : OverlayWriter) {total total' : List ℕ}
      → Written total (e, s)
      → (Holds sizes old works s total → Written total' (k s))
      → Written total' (after e k s)
  seq-Written none k s h next = next h.1
  seq-Written (some x) k s h next = absurd (cc)

  write_all-Written :
      (pieces : List (List ℕ)) (s : OverlayWriter) (total : List ℕ)
      → Holds sizes old works s total
      → Written (total ++ concat pieces) (write_all sizes io pieces s)
  unfolding write_all write
  write_all-Written [] s total v =
      (refl, subst (Holds sizes old works s) (sym (append-nil total)) v)
  write_all-Written (p ∷ ps) s total v =
      subst (λ x. Written x (write_all sizes io (p ∷ ps) s)) (append_assoc total p (concat ps))
        (seq-Written (write sizes io p s).0 (write_all sizes io ps) (write sizes io p s).1
          (buffer_write-Written sizes io old works all fine full positive (2 * length p + 2) p s
            total (omega arith) v)
          (write_all-Written ps (write sizes io p s).1 (total ++ p)))

  start-Written : Written [] (new_overlay_writer sizes io old 0 0)
  unfolding new_overlay_writer write_message patch patch_ops
  start-Written =
      rw (all [] (magic overlay_magic), all (magic overlay_magic ∷ []) header)
        (
          refl,
          record {
            behind = [];
            whole = refl;
            room = omega arith;
            coded = record {
              unread = refl;
              held = refl;
              offset = refl;
              replayed =
                  λ tail. rw (patch_ops, fine (record { content = old; pos = 0 }) (skip 0)) refl;
            };
          },
        )

  abbrev Patched : List ℕ → Option OverlayError × OverlayWriter → Type 0
  Patched new r =
      (r.0 ≡ none)
      × (r.1.read_offset ≡ length new)
      × (patch works r.1.records (record { content = old; pos = 0 })
          ≡ (none, record { content = new ++ drop (length new) old; pos = length new }))

  finalize-Patched :
      (s : OverlayWriter) (new : List ℕ)
      → Holds sizes old works s new
      → Patched new (finalize sizes io s)
  unfolding finalize write_message patch_ops
  finalize-Patched s new v =
      let k = flush-Flushed sizes io old works all fine full positive s new v in
      rw (k.0, all (flush sizes io s).1.records (op hey_you_did_it))
        (refl, k.1.offset, k.1.replayed (op hey_you_did_it ∷ []))

  -- If the old file's reader yields all that it is asked for while it can, and neither the overlay
  -- nor the old file refuses a write: writing pieces of any size to a new overlay and finalizing it
  -- returns no error, and patching the overlay over the old file returns none, and puts the new
  -- content over its start and keeps what the old file has behind that. `ReadOffset` is the length
  -- of the new content.
  pub patch-write_overlay :
      (pieces : List (List ℕ))
      → let (e, s) = write_overlay sizes io old pieces in
        let new = concat pieces in
        (e ≡ none)
        × (s.read_offset ≡ length new)
        × (patch works s.records (record { content = old; pos = 0 })
            ≡ (none, record { content = new ++ drop (length new) old; pos = length new }))
  unfolding write_overlay
  patch-write_overlay pieces =
      let a = start-Written in
      let b = write_all-Written pieces (new_overlay_writer sizes io old 0 0).1 [] a.1 in
      rw (a.0, b.0) (finalize-Patched _ (concat pieces) b.1)
