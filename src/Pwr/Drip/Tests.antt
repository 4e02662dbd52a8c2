-- ===== src/Pwr/Drip/Tests.antt =====
-- Runs of the drip writer (pwr/drip) over a writer that keeps its writes, up to three of them.
use wharf.Base.{
  concat, ℕ, ◌≤◌, ◌<◌, ◌≡◌, refl, none, some, List, [], ◌∷◌, ◌++◌, length, ltb, if◌then◌else◌, All,
  arith,
}
use wharf.Pwr.Drip.{sink_failed, Sink, Writer, write_all, close}
use wharf.Pwr.Drip.Chunks.{relay_all, Given, Follows}
use wharf.Pwr.Drip.Close.{and_close, write_all-Follows, close-relay_all}

abbrev sink : Sink (List (List ℕ)) ℕ
sink = record {
  validate = none;
  write = λ bytes ws. if ltb (length ws) 3 then (none, ws ++ (bytes ∷ [])) else (some 28, ws);
  close = none;
}

-- A writer that can be closed, which it notes by an empty write and fails at
abbrev closer : Sink (List (List ℕ)) ℕ
closer = record sink { close = some (λ ws. (some 5, ws ++ ([] ∷ []))) }

abbrev new_writer : Writer (List (List ℕ))
new_writer = record { buffer = []; sink = [] }

abbrev pieces : List (List ℕ)
pieces = (1 ∷ []) ∷ (2 ∷ 3 ∷ 4 ∷ 5 ∷ []) ∷ []

write_all_runs :
    write_all 2 sink pieces new_writer
    ≡ (none, record { buffer = 5 ∷ []; sink = (1 ∷ 2 ∷ []) ∷ (3 ∷ 4 ∷ []) ∷ [] })
unfolding write_all
write_all_runs = refl

write_all_fails : (write_all 1 sink pieces new_writer).0 ≡ some (sink_failed 28)
unfolding write_all
write_all_fails = refl

given : Given 2 sink [] new_writer []
unfolding relay_all
given = record { chunks = []; full = tt; relayed = refl; whole = refl; room = omega arith }

write_all-Follows_example :
    Follows 2 sink [] ([] ++ concat pieces) (write_all 2 sink pieces new_writer)
write_all-Follows_example = write_all-Follows 2 sink pieces [] new_writer [] given

behind : Given 2 closer [] (record { buffer = 7 ∷ []; sink = [] }) (7 ∷ [])
unfolding relay_all
behind = record { chunks = []; full = tt; relayed = refl; whole = refl; room = omega arith }

close-relay_all_example :
    let (e, w) = close 2 closer (record { buffer = 7 ∷ []; sink = [] }) in
    (chunks : List (List ℕ)) × (concat chunks ≡ 7 ∷ [])
    × All (λ c. (0 < length c) × (length c ≤ 2)) chunks
    × ((e, w.sink) ≡ and_close closer.close (relay_all 2 closer chunks []))
close-relay_all_example = close-relay_all 2 closer [] (7 ∷ []) [] (7 ∷ []) (omega arith) behind

close_runs :
    close 2 closer (record { buffer = 7 ∷ []; sink = [] })
    ≡ (some 5, record { buffer = []; sink = (7 ∷ []) ∷ [] ∷ [] })
unfolding close
close_runs = refl
