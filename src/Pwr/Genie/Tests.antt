-- ===== src/Pwr/Genie/Tests.antt =====
-- Runs of the genie (pwr/genie).
use wharf.Base.{◌≡◌, refl, none, some, List, [], ◌∷◌, arith}
use wharf.Pwr.Genie.{
  SyncOp, block_range, fresh_data, hey_you_did_it, block_origin, fresh_origin, Composition,
  Analysis, analyzed, analyze_file, parse_contents, malformed,
}
use wharf.Pwr.Genie.Places.{Place, old_byte, fresh_byte, op_places}
use wharf.Pwr.Genie.Copied.{existing}
use wharf.Pwr.Genie.Compose.{IsComposed, analyze_file-IsComposed}

abbrev ops : List SyncOp
ops = block_range 1 0 2 ∷ fresh_data (7 ∷ 8 ∷ 9 ∷ []) ∷ hey_you_did_it ∷ []

abbrev comps : List Composition
comps =
    record {
      file_index = 0;
      block_index = 0;
      origins = block_origin 1 0 100000 ∷ [];
      size = 100000;
    }
    ∷ record {
      file_index = 0;
      block_index = 1;
      origins = block_origin 1 100000 31072 ∷ fresh_origin 3 ∷ [];
      size = 31075;
    }
    ∷ []

parse_contents_runs :
    (parse_contents 100000 (131075 ∷ []) ((0, ops) ∷ []) ≡ (none, comps))
    × (parse_contents 100000 (131075 ∷ []) ((1, ops) ∷ []) ≡ (some malformed, []))
unfolding parse_contents
parse_contents_runs = (refl, refl)

-- An old file of one byte: the range counts for a whole block, and copies the byte.
abbrev short_ops : List SyncOp
short_ops = block_range 4 0 1 ∷ fresh_data (1 ∷ 2 ∷ []) ∷ hey_you_did_it ∷ []

analyze_file-IsComposed_example :
    (a : Analysis) × (counted : List Place) × (analyze_file 70000 0 3 short_ops [] ≡ analyzed a)
    × IsComposed 70000 a.listed counted
    × (op_places short_ops ≡ some counted)
    × (existing (λ file. 1) counted ≡ old_byte 4 0 ∷ fresh_byte ∷ fresh_byte ∷ [])
analyze_file-IsComposed_example =
    analyze_file-IsComposed 70000 (omega arith) (λ file. 1) 0 3 short_ops
      (old_byte 4 0 ∷ fresh_byte ∷ fresh_byte ∷ []) (omega arith) refl

-- Three bytes are composed of more than 64 KiB.
counts_too_much : parse_contents 70000 (3 ∷ []) ((0, short_ops) ∷ []) ≡ (
  none,
  record {
    file_index = 0;
    block_index = 0;
    origins = block_origin 4 0 65536 ∷ fresh_origin 2 ∷ [];
    size = 65538;
  }
      ∷ [],
)
unfolding parse_contents
counts_too_much = refl
