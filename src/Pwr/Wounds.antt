-- ===== src/Pwr/Wounds.antt =====
-- pwr/wounds.go: what is wrong with a directory on disk, as the validator finds it. A channel is
-- the list of what is sent on it until it is closed.
pub mod Aggregate
pub mod Consumers
mod Tests
use wharf.Base.{
  ℕ, ◌+◌, ◌-◌, Bool, true, false, ◌&&◌, Option, none, some, List, [], ◌∷◌, ◌++◌, ltb, leb,
  if◌then◌else◌,
}

pub data WoundKind : Type 0 where
  file symlink dir closed_file : WoundKind

pub record Wound : Type 0 where
  pub kind : WoundKind
  pub index : ℕ
  pub start : ℕ
  pub end : ℕ

-- `Wound.Size`
abbrev pub size : Wound → ℕ
size w = w.end - w.start

-- `Wound.Healthy`: a report of progress, no wound.
abbrev pub is_healthy : Wound → Bool
is_healthy w = elim w.kind [ closed_file ↦ true | _ ↦ false ]

abbrev pub is_file : Wound → Bool
is_file w = elim w.kind [ file ↦ true | _ ↦ false ]

-- `lastWound`, and what was sent to `outWounds`
pub record Aggregator : Type 0 where
  pub last_wound : Option Wound
  pub sent : List Wound

-- A wound that waits is sent, and none waits.
abbrev pub clear : Aggregator → Aggregator
clear a = elim a.last_wound [
  | none ↦ a
  | some last ↦ record { last_wound = none; sent = a.sent ++ (last ∷ []) }
]

-- A file wound widens the one that waits, or takes its place.
pub widen : ℕ → Wound → Wound → List Wound → Aggregator
widen max_size last wound sent =
    if leb last.end wound.start && leb last.start wound.start
    then (let wider : Wound = record last { end = wound.end } in
        if leb max_size (wider.end - wider.start)
        then record { last_wound = none; sent = sent ++ (wider ∷ []) }
        else record { last_wound = some wider; sent = sent })
    else record { last_wound = some wound; sent = sent ++ (last ∷ []) }

-- One round of `for wound := range inWounds`
pub receive : ℕ → Wound → Aggregator → Aggregator
unfolding widen
receive max_size wound a =
    if is_file wound
    then elim a.last_wound [
      | none ↦ record a { last_wound = some wound }
      | some last ↦ widen max_size last wound a.sent
    ]
    else (let b = clear a in record b { sent = b.sent ++ (wound ∷ []) })

pub receive_all : ℕ → List Wound → Aggregator → Aggregator
receive_all max_size [] a = a
receive_all max_size (wound ∷ wounds) a = receive_all max_size wounds (receive max_size wound a)

-- `AggregateWounds`: what it sends for the wounds that it receives until its channel is closed.
unfoldable pub aggregate_wounds : ℕ → List Wound → List Wound
unfolding receive_all receive
aggregate_wounds max_size wounds =
    (clear (receive_all max_size wounds (record { last_wound = none; sent = [] }))).sent

-- `totalCorrupted` and `hasWounds` of a consumer
pub record Tally : Type 0 where
  pub total_corrupted : ℕ
  pub has_wounds : Bool

abbrev pub no_wounds : Tally
no_wounds = record { total_corrupted = 0; has_wounds = false }

abbrev pub add : Wound → Tally → Tally
add w t = record { total_corrupted = t.total_corrupted + size w; has_wounds = true }

-- `WoundsGuardian.Do`: the wound of its error, if any.
unfoldable pub guardian : List Wound → Tally → Option Wound × Tally
guardian [] t = (none, t)
guardian (w ∷ ws) t = if is_healthy w then guardian ws t else (some w, add w t)

-- `WoundsPrinter.Do` with a consumer: what it prints.
unfoldable pub printer : List Wound → Tally → List Wound × Tally
printer [] t = ([], t)
printer (w ∷ ws) t = elim (is_healthy w) [
  | true ↦ printer ws t
  | false ↦ let (printed, u) = printer ws (add w t) in (w ∷ printed, u)
]
