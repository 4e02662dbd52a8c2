-- ===== src/Wire/Frames.antt =====
-- Messages that are written and read back (package wire).
use wharf.Base.{
  ℕ, zero, suc, ◌+◌, ◌^◌, ◌<◌, Bool, true, false, Option, none, some, List, [], ◌∷◌, ◌++◌,
  append_assoc, append-nil, length, length-append, take, drop, take-append, drop-append, take_all,
  drop_all, All, ap₂, ◌≡◌, refl, sym, ap, ◌∙◌, ltb, arith, if◌then◌else◌,
}
use mathlib.Core.Path.{subst}
use wharf.Wire.{
  unexpected_eof, overflow, Varint, WireError, put_uvarint, write_bytes, write_message, ReadContext,
  read_full, read_uvarint, read_message,
}
use wharf.Wire.Lengths.{read_uvarint-put_uvarint, put_uvarint-fits}

-- A message behind its length
abbrev pub frame : List ℕ → List ℕ
frame msg = put_uvarint (length msg + 1) (length msg) ++ msg

abbrev pub frames : List (List ℕ) → List ℕ
frames [] = []
frames (m ∷ ms) = frame m ++ frames ms

-- Writing one message after the other, until one fails
abbrev pub write_messages :
    (List ℕ → List ℕ → Bool) → List (List ℕ) → List ℕ → Option WireError × List ℕ
write_messages accepts [] written = (none, written)
write_messages accepts (m ∷ ms) written =
    let r = write_message accepts m written in
    elim r.0 [ none ↦ write_messages accepts ms r.1 | some e ↦ (some e, r.1) ]

-- Reading so many messages, until one fails
abbrev pub read_messages : ℕ → ReadContext → Option WireError × List (List ℕ) × ReadContext
read_messages zero r = (none, [], r)
read_messages (suc n) r =
    let m = read_message r in
    elim m.0 [
      | some e ↦ (some e, [], m.2)
      | none ↦ let ms = read_messages n m.2 in (ms.0, m.1 ∷ ms.1, ms.2)
    ]

write_bytes-all :
    (accepts : List ℕ → List ℕ → Bool)
    → ((written bytes : List ℕ) → accepts written bytes ≡ true)
    → (bytes written : List ℕ) → write_bytes accepts bytes written ≡ (none, written ++ bytes)
unfolding write_bytes
write_bytes-all accepts works bytes written = rw (write_bytes, works written bytes)

-- What comes behind a write
abbrev then_write :
    (List ℕ → Option WireError × List ℕ) → Option WireError × List ℕ → Option WireError × List ℕ
then_write next r = elim r.0 [ some x ↦ (some x, r.1) | none ↦ next r.1 ]

write_message-frame :
    (accepts : List ℕ → List ℕ → Bool)
    → ((written bytes : List ℕ) → accepts written bytes ≡ true)
    → (m written : List ℕ) → write_message accepts m written ≡ (none, written ++ frame m)
unfolding write_message
write_message-frame accepts works m written =
    let len = put_uvarint (length m + 1) (length m) in
    ap (then_write (write_bytes accepts m)) (write_bytes-all accepts works len written)
    ∙ write_bytes-all accepts works m (written ++ len)
    ∙ ap (λ x. (none, x)) (append_assoc written len m)

write_messages-frames :
    (accepts : List ℕ → List ℕ → Bool)
    → ((written bytes : List ℕ) → accepts written bytes ≡ true)
    → (ms : List (List ℕ)) (written : List ℕ)
    → write_messages accepts ms written ≡ (none, written ++ frames ms)
write_messages-frames accepts works [] written = rw (append-nil written)
write_messages-frames accepts works (m ∷ ms) written =
    ap (then_write (write_messages accepts ms)) (write_message-frame accepts works m written)
    ∙ write_messages-frames accepts works ms (written ++ frame m)
    ∙ ap (λ x. (none, x)) (append_assoc written (frame m) (frames ms))

abbrev behind : ReadContext → List ℕ → ℕ → ReadContext
behind r more n = record r { rest = more; offset = r.offset + n }

long_enough : (n : ℕ) (xs ys : List ℕ) → n ≡ length xs → ltb (length (xs ++ ys)) n ≡ false
long_enough n xs ys h = ground (arith, h, length-append xs ys)

take_first : (n : ℕ) (xs ys : List ℕ) → n ≡ length xs → take n (xs ++ ys) ≡ xs
take_first n xs ys h = take-append n xs ys (omega (arith, h)) ∙ take_all n xs (omega (arith, h))

pub drop_first : (n : ℕ) (xs ys : List ℕ) → n ≡ length xs → drop n (xs ++ ys) ≡ ys
drop_first n xs ys h =
    drop-append n xs ys (omega (arith, h)) ∙ ap (λ t. t ++ ys) (drop_all n xs (omega (arith, h)))

read_full-first :
    (n o : ℕ) (msg more : List ℕ) (r : ReadContext)
    → n ≡ length msg
    → read_full n (record r { rest = msg ++ more; offset = o })
      ≡ (some msg, record r { rest = more; offset = o + n })
unfolding read_full
read_full-first n o msg more r h =
    rw (read_full, long_enough n msg more h, take_first n msg more h, drop_first n msg more h)

read_uvarint-frame :
    (msg more : List ℕ)
    → length msg < 2 ^ 56
    → read_uvarint 0 1 0 (frame msg ++ more) ≡ record {
      result = some (length msg);
      left = msg ++ more;
      count = length (put_uvarint (length msg + 1) (length msg));
      overflows = false;
    }
read_uvarint-frame msg more h =
    let n = length msg in
    ap (read_uvarint 0 1 0) (append_assoc (put_uvarint (n + 1) n) msg more)
    ∙ read_uvarint-put_uvarint (n + 1) n 0 1 0 (msg ++ more) (omega arith)
        (omega (arith, put_uvarint-fits (n + 1) n h))
    ∙ ap₂ (λ x c. record { result = some x; left = msg ++ more; count = c; overflows = false })
        (omega arith) (omega arith)

abbrev pub after_read : Option (List ℕ) × ReadContext → Option WireError × List ℕ × ReadContext
after_read r = elim r.0 [ none ↦ (some unexpected_eof, [], r.1) | some bytes ↦ (none, bytes, r.1) ]

-- `ReadMessage` behind the length
abbrev pub after_length : ReadContext → Varint → Option WireError × List ℕ × ReadContext
after_length r v =
    let r' = record r { rest = v.left; offset = r.offset + v.count } in
    elim v.result [
      | none ↦ (some (if v.overflows then overflow else unexpected_eof), [], r')
      | some n ↦ after_read (read_full n r')
    ]

read_message-frame :
    (msg more : List ℕ) (r : ReadContext)
    → length msg < 2 ^ 56
    → read_message (record r { rest = frame msg ++ more })
      ≡ (none, msg, behind r more (length (frame msg)))
unfolding read_message
read_message-frame msg more r h =
    let len = length (put_uvarint (length msg + 1) (length msg)) in
    ap (after_length r) (read_uvarint-frame msg more h)
    ∙ ap after_read (read_full-first (length msg) (r.offset + len) msg more r refl)
    ∙ ap (λ o. (none, msg, record r { rest = more; offset = o }))
        (omega (arith, length-append (put_uvarint (length msg + 1) (length msg)) msg))

-- `read_messages` behind a message
abbrev then_read :
    ℕ → Option WireError × List ℕ × ReadContext → Option WireError × List (List ℕ) × ReadContext
then_read n m = elim m.0 [
  | some e ↦ (some e, [], m.2)
  | none ↦ let ms = read_messages n m.2 in (ms.0, m.1 ∷ ms.1, ms.2)
]

read_messages-frames :
    (ms : List (List ℕ)) (more : List ℕ) (r : ReadContext)
    → All (λ m. length m < 2 ^ 56) ms
    → read_messages (length ms) (record r { rest = frames ms ++ more })
      ≡ (none, ms, behind r more (length (frames ms)))
read_messages-frames [] more r h =
    ap (λ o. (none, [], record r { rest = more; offset = o })) (omega arith)
read_messages-frames (m ∷ ms) more r h =
    ap (λ t. read_messages (suc (length ms)) (record r { rest = t }))
      (append_assoc (frame m) (frames ms) more)
    ∙ ap (then_read (length ms)) (read_message-frame m (frames ms ++ more) r h.0)
    ∙ ap (λ x. (x.0, m ∷ x.1, x.2))
        (read_messages-frames ms more (behind r (frames ms ++ more) (length (frame m))) h.1)
    ∙ ap (λ o. (none, m ∷ ms, record r { rest = more; offset = o }))
        (omega (arith, length-append (frame m) (frames ms)))

-- Messages shorter than 2^56 bytes, written one after the other to a writer that takes them: a
-- reader over what was written, with anything behind it, reads them back without an error, leaves
-- what is behind, and its offset grows by exactly the number of bytes written.
pub read_messages-write_messages :
    (accepts : List ℕ → List ℕ → Bool) (ms : List (List ℕ)) (more : List ℕ) (r : ReadContext)
    → ((written bytes : List ℕ) → accepts written bytes ≡ true)
    → All (λ m. length m < 2 ^ 56) ms
    → let (e, out) = write_messages accepts ms [] in
      (e ≡ none)
      × (read_messages (length ms) (record r { rest = out ++ more })
          ≡ (none, ms, record r { rest = more; offset = r.offset + length out }))
read_messages-write_messages accepts ms more r works h =
    subst
      (λ w.
        (w.0 ≡ none)
        × (read_messages (length ms) (record r { rest = w.1 ++ more })
            ≡ (none, ms, record r { rest = more; offset = r.offset + length w.1 })))
      (sym (write_messages-frames accepts works ms [])) (refl, read_messages-frames ms more r h)
