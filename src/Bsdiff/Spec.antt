-- ===== src/Bsdiff/Spec.antt =====
-- The bytes that a bsdiff patch stands for (bsdiff/patch.go).
use wharf.Base.{
  ℕ, ◌+◌, ◌-◌, ◌≤◌, ◌≡◌, refl, sym, ap, ◌∙◌, true, false, Option, none, some, List, [], ◌∷◌, ◌++◌,
  append-nil, append_assoc, length, length-append, length-drop, drop, ltb, leb, ◌==◌, if◌then◌else◌,
  Bool-cases, Option-cases, inl, inr, arith, min, leb→le,
}
use mathlib.Core.Path.{subst}
use wharf.Wsync.Apply.{Output, copy}
use wharf.Bsdiff.{
  ℤ, pos, negsuc, ◌+ℤ◌, Control, PatchState, PatchError, add_bytes, apply_add, apply_copy, apply,
  apply_all, patch_old, wrong_size,
}

-- The bytes that controls stand for, from an offset of the old file on: none where the offset is
-- outside of the old file, the file is too short to be added to, or no control ends the list.
unfoldable pub spec_bytes : List ℕ → List Control → ℤ → Option (List ℕ)
spec_bytes old [] offset = none
spec_bytes old (ctrl ∷ ctrls) (negsuc n) = if ctrl.eof then some [] else none
spec_bytes old (ctrl ∷ ctrls) (pos n) =
    if ctrl.eof
    then some []
    else elim (spec_bytes old ctrls (pos (n + length ctrl.add) +ℤ ctrl.seek)) [
      | none ↦ none
      | some bytes ↦
          if leb (n + length ctrl.add) (length old)
          then some (add_bytes ctrl.add (drop n old) ++ (ctrl.copied ++ bytes))
          else none
    ]

-- The state behind some bytes.
abbrev pub behind : ℤ → List ℕ → Output → PatchState
behind offset bytes out = record {
  old_offset = offset;
  out = record { written = out.written ++ bytes; room = out.room - length bytes };
}

length-add_bytes : (bs os : List ℕ) → length (add_bytes bs os) ≡ min (length bs) (length os)
unfolding add_bytes
length-add_bytes [] os = omega arith
length-add_bytes (b ∷ bs) [] = omega arith
length-add_bytes (b ∷ bs) (o ∷ os) = omega (arith, length-add_bytes bs os)

copy-fits :
    (bytes : List ℕ) (out : Output)
    → length bytes ≤ out.room
    → copy bytes false out ≡ record {
      count = length bytes;
      failed = false;
      output = record { written = out.written ++ bytes; room = out.room - length bytes };
    }
unfolding copy
copy-fits bytes out h = ground arith

behind_nil :
    (offset : ℤ) (out : Output) → behind offset [] out ≡ record { old_offset = offset; out = out }
behind_nil offset out =
    rw (append-nil out.written)
      (ap (λ r. record { old_offset = offset; out = record { written = out.written; room = r } }) e)
  where
    e : out.room - 0 ≡ out.room
    e = omega arith

module _ (old : List ℕ) where
  apply_add-fits :
      (add : List ℕ) (n : ℕ) (out : Output)
      → n + length add ≤ length old
      → length add ≤ out.room
      → apply_add old add n out
        ≡ (none, behind (pos (n + length add)) (add_bytes add (drop n old)) out)
  unfolding apply_add add_bytes
  apply_add-fits [] n out h r =
      ap (λ s. (none, s))
        (ap (λ m. record { old_offset = pos m; out = out }) e ∙ sym (behind_nil (pos (n + 0)) out))
    where
      e : n ≡ n + 0
      e = omega arith
  apply_add-fits (b ∷ bs) n out h r =
      rw
        (apply_add, copy-fits (add_bytes (b ∷ bs) (drop n old)) out (omega (arith, count)), counted)
        refl
    where
      count : length (add_bytes (b ∷ bs) (drop n old)) ≡ length (b ∷ bs)
      count = omega (arith, length-add_bytes (b ∷ bs) (drop n old), length-drop n old)

      counted : (length (add_bytes (b ∷ bs) (drop n old)) == length (b ∷ bs)) ≡ true
      counted = ground (arith, count)

  apply_copy-fits :
      (bytes : List ℕ) (seek : ℤ) (s : PatchState)
      → length bytes ≤ s.out.room
      → apply_copy old bytes seek s ≡ (none, behind (s.old_offset +ℤ seek) bytes s.out)
  unfolding apply_copy
  apply_copy-fits [] seek s r = ap (λ s. (none, s)) (sym (behind_nil (s.old_offset +ℤ seek) s.out))
  apply_copy-fits (b ∷ bs) seek s r = rw (apply_copy, copy-fits (b ∷ bs) s.out r) refl

  step-fits :
      (ctrl : Control) (n : ℕ) (out : Output)
      → n + length ctrl.add ≤ length old
      → length (add_bytes ctrl.add (drop n old)) + length ctrl.copied ≤ out.room
      → apply old ctrl (record { old_offset = pos n; out = out }) ≡ (
        none,
        behind
            (pos (n + length ctrl.add) +ℤ ctrl.seek)
            ctrl.copied
            (behind (pos (n + length ctrl.add)) (add_bytes ctrl.add (drop n old)) out).out,
      )
  unfolding apply
  step-fits ctrl n out h r =
      rw (apply, inside)
        (ap and_copy (apply_add-fits ctrl.add n out h (omega (arith, r, count)))
          ∙ apply_copy-fits ctrl.copied ctrl.seek
              (behind (pos (n + length ctrl.add)) (add_bytes ctrl.add (drop n old)) out)
              (omega (arith, r)))
    where
      count : length (add_bytes ctrl.add (drop n old)) ≡ length ctrl.add
      count = omega (arith, length-add_bytes ctrl.add (drop n old), length-drop n old)

      and_copy : Option PatchError × PatchState → Option PatchError × PatchState
      and_copy (e, s) = elim e [
        | some x ↦ (some x, s)
        | none ↦ apply_copy old ctrl.copied ctrl.seek s
      ]

      inside : ltb (length old) n ≡ false
      inside = ground (arith, h)

  twice :
      (xs bs cs : List ℕ) (out : Output)
      → ◌≡◌ {A = Output}
          (record {
            written = ((out.written ++ xs) ++ bs) ++ cs;
            room = out.room - length xs - length bs - length cs;
          })
          (record {
            written = out.written ++ (xs ++ (bs ++ cs));
            room = out.room - length (xs ++ (bs ++ cs));
          })
  twice xs bs cs out =
      ap (λ w. record { written = w; room = out.room - length xs - length bs - length cs })
        (append_assoc (out.written ++ xs) bs cs ∙ append_assoc out.written xs (bs ++ cs))
      ∙ ap (λ r. record { written = out.written ++ (xs ++ (bs ++ cs)); room = r })
          (omega (arith, length-append xs (bs ++ cs), length-append bs cs))

  some_inj : (xs ys : List ℕ) → ◌≡◌ {A = Option (List ℕ)} (some xs) (some ys) → xs ≡ ys
  some_inj xs ys h = cc

  nothing :
      (bytes : List ℕ) (out : Output)
      → ◌≡◌ {A = Option (List ℕ)} (some []) (some bytes)
      → out ≡ record { written = out.written ++ bytes; room = out.room - length bytes }
  nothing bytes out h =
      sym (ap (λ s. s.out) (behind_nil (pos 0) out))
      ∙ ap (λ b. record { written = out.written ++ b; room = out.room - length b })
          (some_inj [] bytes h)

  abbrev Wrote : List ℕ → Output → Option PatchError × PatchState → Type 0
  Wrote bytes out r =
      (r.0 ≡ none)
      × (r.1.out ≡ record { written = out.written ++ bytes; room = out.room - length bytes })

  apply_all-spec_bytes :
      (ctrls : List Control) (offset : ℤ) (out : Output) (bytes : List ℕ)
      → spec_bytes old ctrls offset ≡ some bytes
      → length bytes ≤ out.room
      → Wrote bytes out (apply_all old ctrls (record { old_offset = offset; out = out }))
  unfolding apply_all spec_bytes
  apply_all-spec_bytes [] offset out bytes h r = absurd (cc)
  apply_all-spec_bytes (ctrl ∷ ctrls) (negsuc n) out bytes h r = elim (Bool-cases ctrl.eof) [
    | inl e ↦ rw (apply_all, e) (refl, nothing bytes out (rw (spec_bytes, e) at h))
    | inr e ↦ absurd (ground (arith, e, h))
  ]
  apply_all-spec_bytes (ctrl ∷ ctrls) (pos n) out bytes h r = elim (Bool-cases ctrl.eof) [
    | inl e ↦ rw (apply_all, e) (refl, nothing bytes out (rw (spec_bytes, e) at h))
    | inr e ↦ elim (Option-cases (spec_bytes old ctrls (pos (n + length ctrl.add) +ℤ ctrl.seek))) [
      | inl g ↦ absurd (ground (arith, e, g, h))
      | inr (rest, g) ↦ elim (Bool-cases (leb (n + length ctrl.add) (length old))) [
        | inr l ↦ absurd (ground (arith, e, g, l, h))
        | inl l ↦
            let added = add_bytes ctrl.add (drop n old) in
            let whole =
              some_inj (added ++ (ctrl.copied ++ rest)) bytes (rw (spec_bytes, e, g, l) at h) in
            let size =
              ap (λ x. length x) (sym whole)
              ∙ length-append added (ctrl.copied ++ rest)
              ∙ ap (λ m. length added + m) (length-append ctrl.copied rest) in
            let out' =
              behind (pos (n + length ctrl.add) +ℤ ctrl.seek) ctrl.copied
                (behind (pos (n + length ctrl.add)) added out).out in
            let next =
              apply_all-spec_bytes ctrls (pos (n + length ctrl.add) +ℤ ctrl.seek) out'.out rest g
                (omega (arith, r, size)) in
            rw (apply_all, e)
              (subst
                (λ q.
                  Wrote bytes out
                    (elim q.0 [ some x ↦ (some x, q.1) | none ↦ apply_all old ctrls q.1 ]))
                (sym (step-fits ctrl n out (leb→le _ _ l) (omega (arith, r, size))))
                (
                  next.0,
                  next.1
                      ∙ twice added ctrl.copied rest out
                      ∙ ap (λ b. record { written = out.written ++ b; room = out.room - length b })
                          whole,
                ))
      ]
    ]
  ]

  -- Controls that stand for some bytes, with room for them in the output: patching writes them, and
  -- returns an error just where their number is not the size that was announced.
  pub patch_old-spec_bytes :
      (ctrls : List Control) (new_size : ℕ) (out : Output) (bytes : List ℕ)
      → spec_bytes old ctrls (pos 0) ≡ some bytes
      → length bytes ≤ out.room
      → ((patch_old old ctrls new_size out).0
          ≡ (if length bytes == new_size then none else some wrong_size))
        × ((patch_old old ctrls new_size out).1.out.written ≡ out.written ++ bytes)
  unfolding patch_old
  patch_old-spec_bytes ctrls new_size out bytes h r = elim (Bool-cases (length bytes == new_size)) [
    | inl b ↦ rw (patch_old, w.0, counted, b) (refl, ap (λ o. o.written) w.1)
    | inr b ↦ rw (patch_old, w.0, counted, b) (refl, ap (λ o. o.written) w.1)
  ]
    where
      end : Option PatchError × PatchState
      end = apply_all old ctrls (record { old_offset = pos 0; out = out })

      w : Wrote bytes out end
      w = apply_all-spec_bytes ctrls (pos 0) out bytes h r

      counted : length end.1.out.written - length out.written ≡ length bytes
      counted = omega (arith, ap (λ o. length o.written) w.1, length-append out.written bytes)
