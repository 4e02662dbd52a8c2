-- ===== src/Pwr/Wounds/Aggregate.antt =====
-- What the wounds that `AggregateWounds` of pwr/wounds.go sends have of those that it receives: the
-- bytes of a file that they cover, and all that are not of files.
use wharf.Base.{
  ℕ, ◌-◌, ◌≤◌, ◌≡◌, refl, sym, ap, ◌∙◌, Bool, true, false, ◌&&◌, ◌||◌, Option, none, some, List, [],
  ◌∷◌, ◌++◌, append-nil, append_assoc, ltb, leb, ◌==◌, if◌then◌else◌, All, arith, Bool-cases, inl,
  inr,
}
use mathlib.Core.Path.{subst}
use wharf.Pwr.Wounds.{
  Wound, is_file, Aggregator, clear, widen, receive, receive_all, aggregate_wounds,
}

-- Whether the byte `k` of the file `index` is in one of the wounds.
abbrev pub covers_one : ℕ → ℕ → Wound → Bool
covers_one index k w = is_file w && (w.index == index && (leb w.start k && ltb k w.end))

unfoldable pub covers : ℕ → ℕ → List Wound → Bool
covers index k [] = false
covers index k (w ∷ ws) = covers_one index k w || covers index k ws

-- The wounds that are of one file, and end behind their start, where they are of files at all.
abbrev pub IsOf : ℕ → Wound → Type 0
IsOf index w = is_file w ≡ true → (w.index ≡ index) × (w.start ≤ w.end)

-- what is sent, and what waits
abbrev all_of : Aggregator → List Wound
all_of a = a.sent ++ elim a.last_wound [ none ↦ [] | some last ↦ last ∷ [] ]

covers-append :
    (i k : ℕ) (xs ys : List Wound) → covers i k (xs ++ ys) ≡ (covers i k xs || covers i k ys)
unfolding covers
covers-append i k [] ys = refl
covers-append i k (x ∷ xs) ys = ground (arith, covers-append i k xs ys)

abbrev waiting : Option Wound → List Wound
waiting none = []
waiting (some last) = last ∷ []

abbrev IsFit : ℕ → Option Wound → Type 0
IsFit i none = Unit
IsFit i (some w) = (is_file w ≡ true) × (w.index ≡ i) × (w.start ≤ w.end)

abbrev state : Option Wound → List Wound → Aggregator
state last sent = record { last_wound = last; sent = sent }

-- A wound that widens the last one covers what both do.
widened :
    (i k : ℕ) (last w : Wound)
    → IsFit i (some last)
    → IsOf i w
    → is_file w ≡ true
    → last.end ≤ w.start
    → (covers_one i k last || covers_one i k w) ≡ true
    → covers_one i k (record last { end = w.end }) ≡ true
widened i k last w v h f le c = ground (arith, h f)

receive-covers :
    (i k max_size : ℕ) (w : Wound) (last : Option Wound) (sent : List Wound)
    → IsOf i w
    → IsFit i last
    → (covers i k (all_of (state last sent)) || covers_one i k w) ≡ true
    → covers i k (all_of (receive max_size w (state last sent))) ≡ true
unfolding receive widen covers
receive-covers i k max_size w none sent h v c =
    ground (arith, covers-append i k sent (w ∷ []), append-nil sent, append-nil (sent ++ (w ∷ [])))
receive-covers i k max_size w (some last) sent h v c = elim (Bool-cases (is_file w)) [
  | inl f ↦ elim (Bool-cases (leb last.end w.start && leb last.start w.start)) [
    | inl l ↦ elim (Bool-cases (leb max_size (w.end - last.start))) [
      | inl m ↦
          rw (f, l, m, append-nil (sent ++ (wider ∷ [])), covers-append i k sent (wider ∷ []))
            (ground (arith, covers-append i k sent (last ∷ []), widened i k last w v h f))
      | inr m ↦
          rw (f, l, m, covers-append i k sent (wider ∷ []))
            (ground (arith, covers-append i k sent (last ∷ []), widened i k last w v h f))
    ]
    | inr l ↦ rw (f, l, covers-append i k (sent ++ (last ∷ [])) (w ∷ [])) (ground arith)
  ]
  | inr f ↦
      rw
        (
          f,
          append-nil ((sent ++ (last ∷ [])) ++ (w ∷ [])),
          covers-append i k (sent ++ (last ∷ [])) (w ∷ []),
        )
        (ground arith)
]
  where
    wider : Wound
    wider = record last { end = w.end }

receive-Good :
    (i max_size : ℕ) (w : Wound) (last : Option Wound) (sent : List Wound)
    → IsOf i w
    → IsFit i last
    → IsFit i (receive max_size w (state last sent)).last_wound
unfolding receive widen
receive-Good i max_size w none sent h v = elim (Bool-cases (is_file w)) [
  | inl f ↦ rw f (f, (h f).0, (h f).1)
  | inr f ↦ rw f tt
]
receive-Good i max_size w (some last) sent h v = elim (Bool-cases (is_file w)) [
  | inl f ↦ elim (Bool-cases (leb last.end w.start && leb last.start w.start)) [
    | inl l ↦ elim (Bool-cases (leb max_size (w.end - last.start))) [
      | inl m ↦ rw (f, l, m) tt
      | inr m ↦ rw (f, l, m) (v.0, v.1, ground (arith, l, h f))
    ]
    | inr l ↦ rw (f, l) (f, (h f).0, (h f).1)
  ]
  | inr f ↦ rw f tt
]

receive_all-covers :
    (i k max_size : ℕ) (ws : List Wound) (last : Option Wound) (sent : List Wound)
    → All (IsOf i) ws
    → IsFit i last
    → (covers i k (all_of (state last sent)) || covers i k ws) ≡ true
    → covers i k (all_of (receive_all max_size ws (state last sent))) ≡ true
unfolding receive_all covers
receive_all-covers i k max_size [] last sent h v c = ground arith
receive_all-covers i k max_size (w ∷ ws) last sent h v c =
    receive_all-covers i k max_size ws a.last_wound a.sent h.1
      (receive-Good i max_size w last sent h.0 v)
      (elim (Bool-cases (covers i k (all_of (state last sent)) || covers_one i k w)) [
        | inl e ↦ ground (arith, receive-covers i k max_size w last sent h.0 v e)
        | inr e ↦ ground arith
      ])
  where
    a : Aggregator
    a = receive max_size w (state last sent)

clear-all_of :
    (last : Option Wound) (sent : List Wound)
    → (clear (state last sent)).sent ≡ all_of (state last sent)
clear-all_of none sent = sym (append-nil sent)
clear-all_of (some last) sent = refl

-- If the wounds of files are all of one file and none ends before its start: each byte of the file
-- that a wound covers is covered by a wound that is sent.
pub aggregate_wounds-covers :
    (i k max_size : ℕ) (ws : List Wound)
    → All (IsOf i) ws
    → covers i k ws ≡ true
    → covers i k (aggregate_wounds max_size ws) ≡ true
unfolding aggregate_wounds covers
aggregate_wounds-covers i k max_size ws h c =
    let a = receive_all max_size ws (state none []) in
    subst (λ x. covers i k x ≡ true) (sym (clear-all_of a.last_wound a.sent))
      (receive_all-covers i k max_size ws none [] h tt c)

-- The wounds that are not of files.
pub others : List Wound → List Wound
others [] = []
others (w ∷ ws) = if is_file w then others ws else w ∷ others ws

others-file : (xs : List Wound) (w : Wound) → is_file w ≡ true → others (xs ++ (w ∷ [])) ≡ others xs
unfolding others
others-file [] w f = rw f refl
others-file (x ∷ xs) w f = ground (arith, others-file xs w f)

others-other :
    (xs : List Wound) (w : Wound)
    → is_file w ≡ false
    → others (xs ++ (w ∷ [])) ≡ others xs ++ (w ∷ [])
unfolding others
others-other [] w f = rw f refl
others-other (x ∷ xs) w f = ground (arith, others-other xs w f)

abbrev WaitsFile : Option Wound → Type 0
WaitsFile none = Unit
WaitsFile (some w) = is_file w ≡ true

others-receive :
    (max_size : ℕ) (w : Wound) (last : Option Wound) (sent : List Wound)
    → WaitsFile last
    → let a = receive max_size w (state last sent) in
      WaitsFile a.last_wound × (others (all_of a) ≡ others sent ++ others (w ∷ []))
unfolding receive widen others
others-receive max_size w none sent v = elim (Bool-cases (is_file w)) [
  | inl f ↦ rw f (f, others-file sent w f ∙ sym (append-nil (others sent)))
  | inr f ↦ rw (f, append-nil (sent ++ (w ∷ []))) (tt, others-other sent w f)
]
others-receive max_size w (some last) sent v = elim (Bool-cases (is_file w)) [
  | inl f ↦ elim (Bool-cases (leb last.end w.start && leb last.start w.start)) [
    | inl l ↦ elim (Bool-cases (leb max_size (w.end - last.start))) [
      | inl m ↦
          rw (f, l, m, append-nil (sent ++ (wider ∷ [])))
            (tt, others-file sent wider v ∙ sym (append-nil (others sent)))
      | inr m ↦ rw (f, l, m) (v, others-file sent wider v ∙ sym (append-nil (others sent)))
    ]
    | inr l ↦
        rw (f, l)
          (
            f,
            others-file (sent ++ (last ∷ [])) w f
                ∙ others-file sent last v
                ∙ sym (append-nil (others sent)),
          )
  ]
  | inr f ↦
      rw (f, append-nil ((sent ++ (last ∷ [])) ++ (w ∷ [])))
        (
          tt,
          others-other (sent ++ (last ∷ [])) w f
              ∙ ap (λ x. x ++ (w ∷ [])) (others-file sent last v),
        )
]
  where
    wider : Wound
    wider = record last { end = w.end }

others-all_of :
    (last : Option Wound) (sent : List Wound)
    → WaitsFile last
    → others (all_of (state last sent)) ≡ others sent
others-all_of none sent v = ap others (append-nil sent)
others-all_of (some last) sent v = others-file sent last v

others-receive_all :
    (max_size : ℕ) (ws : List Wound) (last : Option Wound) (sent : List Wound)
    → WaitsFile last
    → others (all_of (receive_all max_size ws (state last sent))) ≡ others sent ++ others ws
unfolding receive_all others
others-receive_all max_size [] last sent v =
    others-all_of last sent v ∙ sym (append-nil (others sent))
others-receive_all max_size (w ∷ ws) last sent v =
    others-receive_all max_size ws a.last_wound a.sent step.0
    ∙ ap (λ x. x ++ others ws) (sym (others-all_of a.last_wound a.sent step.0) ∙ step.1)
    ∙ append_assoc (others sent) (others (w ∷ [])) (others ws)
    ∙ ap (λ x. others sent ++ x) (one (is_file w) refl)
  where
    a : Aggregator
    a = receive max_size w (state last sent)

    step : WaitsFile a.last_wound × (others (all_of a) ≡ others sent ++ others (w ∷ []))
    step = others-receive max_size w last sent v

    one : (b : Bool) → is_file w ≡ b → others (w ∷ []) ++ others ws ≡ others (w ∷ ws)
    one true f = rw f refl
    one false f = rw f refl

-- The wounds that are not of files are sent as they come, in their order.
pub others-aggregate_wounds :
    (max_size : ℕ) (ws : List Wound) → others (aggregate_wounds max_size ws) ≡ others ws
unfolding aggregate_wounds others
others-aggregate_wounds max_size ws =
    let a = receive_all max_size ws (state none []) in
    ap others (clear-all_of a.last_wound a.sent) ∙ others-receive_all max_size ws none [] tt
