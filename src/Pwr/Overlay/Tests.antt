-- ===== src/Pwr/Overlay/Tests.antt =====
-- Runs of the overlay writer and patcher (pwr/overlay) on small buffers.
use wharf.Base.{
  concat, ℕ, ◌≡◌, refl, true, none, some, List, [], ◌∷◌, ◌++◌, length, drop, min, slice, arith,
}
use wharf.Pwr.Overlay.{
  skip, fresh, hey_you_did_it, Record, magic, header, op, overlay_magic, Sizes, Streams, patch,
}
use wharf.Pwr.Overlay.RoundTrip.{write_overlay, patch-write_overlay}

abbrev sizes : Sizes
sizes = record { buf_size = 4; same_threshold = 1 }

abbrev io : Streams
io = record { read = λ rest n. some (min n (length rest)); accepts = λ rs r. true }

abbrev old : List ℕ
old = 1 ∷ 2 ∷ 3 ∷ 4 ∷ 5 ∷ 6 ∷ 7 ∷ []

abbrev pieces : List (List ℕ)
pieces = (1 ∷ 2 ∷ []) ∷ (3 ∷ 9 ∷ 5 ∷ 6 ∷ 8 ∷ 7 ∷ 7 ∷ []) ∷ []

abbrev records : List Record
records =
    magic overlay_magic
    ∷ header
    ∷ op (skip 3)
    ∷ op (fresh (9 ∷ []))
    ∷ op (skip 2)
    ∷ op (fresh (8 ∷ []))
    ∷ op (fresh (7 ∷ []))
    ∷ op (fresh (7 ∷ []))
    ∷ op hey_you_did_it
    ∷ []

write_overlay_runs : (write_overlay sizes io old pieces).1.records ≡ records
unfolding write_overlay slice
write_overlay_runs = refl

patch-write_overlay_example :
    let (e, s) = write_overlay sizes io old pieces in
    let new = concat pieces in
    (e ≡ none)
    × (s.read_offset ≡ length new)
    × (patch (λ t o. true) s.records (record { content = old; pos = 0 })
        ≡ (none, record { content = new ++ drop (length new) old; pos = length new }))
patch-write_overlay_example =
    patch-write_overlay sizes io old (λ t o. true) (λ rs r. refl) (λ t o. refl) (λ rest n. refl)
      (omega arith) pieces

-- A reader that yields a byte at a time is left behind the writer.
abbrev slow : Streams
slow = record { read = λ rest n. some (min (min n 1) (length rest)); accepts = λ rs r. true }

abbrev quick : Sizes
quick = record { buf_size = 4; same_threshold = 0 }

slow_reader_loses :
    (patch
      (λ t o. true)
      (write_overlay quick slow
        (1 ∷ 2 ∷ 3 ∷ 4 ∷ 5 ∷ [])
        ((1 ∷ 2 ∷ 3 ∷ 4 ∷ []) ∷ (2 ∷ []) ∷ [])).1.records
      (record { content = 1 ∷ 2 ∷ 3 ∷ 4 ∷ 5 ∷ []; pos = 0 })).1.content
    ≡ 1 ∷ 2 ∷ 3 ∷ 4 ∷ 5 ∷ []
unfolding write_overlay patch
slow_reader_loses = refl
