-- ===== src/Pwr/Patcher/Tests.antt =====
-- Runs of the patcher (pwr/patcher) over services that keep a log of the calls.
use wharf.Base.{
  ℕ, zero, suc, Bool, true, false, Option, none, some, List, [], ◌∷◌, length, get_elem?, ◌≡◌, refl,
  ◌==◌, ltb,
}
use wharf.Wsync.Types.{Operation, op_block_range, op_data}
use wharf.Wsync.Emitter.Bytes.{ops_bytes}
use wharf.Pwr.BlockMath.{block_size}
use wharf.Pwr.Patcher.{
  block_range, Message, control_eof, bsdiff_header, read_until_end_marker, sync_header, sync_op,
  hey_you_did_it, rsync, stopped, unknown_op_type, wrong_file_index, Checkpoint, stop, Services,
  Outcome, is_full_file_op,
}
use wharf.Pwr.Patcher.FullFile.{is_full_file_op-ops_bytes}
use wharf.Pwr.Patcher.Resume.{resume, is_skipped}
use wharf.Pwr.Patcher.Replay.{FileOps, print_files, next, plan_files, unskipped}
use wharf.Pwr.Patcher.Replay.Whole.{PlaysAll, resume-plan_files}

data Logged : Type 0 where
  got_writer resumed_writer opened started : ℕ → Logged
  transposed : ℕ → ℕ → Logged
  applied : Operation → Logged
  finalized closed resumed_bowl : Logged

-- The calls, the newest first, and the checkpoints that are still wanted
record World : Type 0 where
  log : List Logged
  wanted : ℕ
  saved : Option (Checkpoint ℕ ℕ)

abbrev note : Logged → World → Bool × World
note l w = (true, record w { log = l ∷ w.log })

abbrev count : Option ℕ → ℕ
count none = 0
count (some n) = n

abbrev services : Services ℕ ℕ World
services = record {
  resume_bowl = λ b. note resumed_bowl;
  save_bowl = λ w. (some (length w.log), w);
  get_writer = λ i. note (got_writer i);
  resume_writer = λ c. note (resumed_writer (count c));
  save_writer = λ w. (some (length w.log), w);
  tell = λ w. 0;
  finalize = note finalized;
  close_writer = note closed;
  transpose = λ i j. note (transposed i j);
  apply_single = λ o. note (applied o);
  open_old = λ i. note (opened i);
  new_context = λ i. note (started i);
  apply_control = λ c w. (true, w);
  old_offset = λ w. 0;
  should_save = λ w. (ltb 0 w.wanted, w);
  pop_checkpoint = λ w. (w.wanted == 1, w);
  save = λ c w. (stop, record w { wanted = 0; saved = some c });
}

abbrev new_world : World
new_world = record { log = []; wanted = 0; saved = none }

-- One that never wants a checkpoint
abbrev quiet_services : Services ℕ ℕ World
quiet_services = record services { should_save = λ w. (false, w) }

-- The first file is the old file 1, the second is new, the third is not on the whitelist.
abbrev files : List FileOps
files =
    (op_block_range 1 0 1, op_data [] ∷ [])
    ∷ (op_data (7 ∷ []), op_block_range 0 0 1 ∷ [])
    ∷ (op_data (8 ∷ []), [])
    ∷ []

abbrev old_sizes : List ℕ
old_sizes = 3 ∷ 2 ∷ []

abbrev new_sizes : List ℕ
new_sizes = 2 ∷ 4 ∷ 1 ∷ []

abbrev whitelist : Option (ℕ → Bool)
whitelist = some (λ i. ltb i 2)

resume_runs :
    resume quiet_services old_sizes new_sizes whitelist none (print_files 0 files) new_world ≡ (
      (
        none,
        [],
        record new_world {
          log =
              closed
              ∷ finalized
              ∷ applied (op_block_range 0 0 1)
              ∷ applied (op_data (7 ∷ []))
              ∷ resumed_writer 0
              ∷ got_writer 1
              ∷ transposed 0 1
              ∷ resumed_bowl
              ∷ [];
        },
      ),
      2,
    )
unfolding resume
resume_runs = refl

resume-plan_files_example :
    PlaysAll
      (resume quiet_services old_sizes new_sizes whitelist none (print_files 0 files) new_world)
      (next (quiet_services.resume_bowl none new_world) (
        plan_files quiet_services old_sizes new_sizes
          (is_skipped quiet_services old_sizes new_sizes whitelist)
          0
          files))
      (unskipped quiet_services old_sizes new_sizes
        (is_skipped quiet_services old_sizes new_sizes whitelist)
        0
        files)
unfolding is_full_file_op
resume-plan_files_example =
    resume-plan_files quiet_services (λ s. refl) old_sizes new_sizes whitelist files new_world refl
      ((true, refl), ((false, refl), ((false, refl), tt)))

abbrev old : ℕ → List ℕ
old zero = 1 ∷ 2 ∷ 3 ∷ []
old (suc n) = 4 ∷ 5 ∷ []

old-sizes : (i n : ℕ) → get_elem? old_sizes i ≡ some n → length (old i) ≡ n
old-sizes zero n h = cc
old-sizes (suc zero) n h = cc
old-sizes (suc (suc i)) n h = absurd cc

is_full_file_op-ops_bytes_example :
    (ops_bytes old block_size (op_block_range 1 0 1 ∷ []) ≡ old 1)
    × (get_elem? new_sizes 0 ≡ some (length (old 1)))
unfolding is_full_file_op
is_full_file_op-ops_bytes_example =
    is_full_file_op-ops_bytes old old_sizes new_sizes old-sizes 0 1 0 1 refl

-- A checkpoint between the operations of the second file; the patch stops there.
abbrev stopped_at : Outcome World × ℕ
stopped_at =
    resume services old_sizes new_sizes whitelist none (print_files 0 files)
      (record new_world { wanted = 1 })

resume_stops :
    (stopped_at.0.0 ≡ some stopped)
    × (stopped_at.0.1
        ≡ sync_op (block_range 0 0 1)
          ∷ sync_op hey_you_did_it
          ∷ print_files 2 ((op_data (8 ∷ []), []) ∷ []))
unfolding resume
resume_stops = (refl, refl)

-- And goes on from there, with the rest of the operations.
resume_goes_on :
    (resume services old_sizes new_sizes whitelist stopped_at.0.2.saved []
      (record new_world { log = [] })).0.2.log
    ≡ closed
      ∷ finalized
      ∷ applied (op_block_range 0 0 1)
      ∷ resumed_writer 5
      ∷ got_writer 1
      ∷ resumed_bowl
      ∷ []
unfolding resume
resume_goes_on = refl

-- A file without operations is an error: its first message is the end marker.
no_operations :
    (resume quiet_services []
      (0 ∷ [])
      none
      none
      (sync_header (record { file_index = 0; series = rsync }) ∷ sync_op hey_you_did_it ∷ [])
      new_world).0.0
    ≡ some unknown_op_type
unfolding resume
no_operations = refl

abbrev series : List Message
series = control_eof ∷ sync_op hey_you_did_it ∷ []

-- A bsdiff series is skipped like any other, but not if its old file is the one of index 2049,
-- which is the number of the end marker: the skip ends at the header of the series.
skips_bsdiff :
    (read_until_end_marker (bsdiff_header 7 ∷ series) zero ≡ (none, [], zero))
    × (read_until_end_marker (bsdiff_header 2049 ∷ series) zero ≡ (none, series, zero))
unfolding read_until_end_marker
skips_bsdiff = (refl, refl)

headers_in_order :
    (resume quiet_services []
      (0 ∷ [])
      none
      none
      (sync_header (record { file_index = 1; series = rsync }) ∷ sync_op hey_you_did_it ∷ [])
      new_world).0.0
    ≡ some wrong_file_index
unfolding resume
headers_in_order = refl

-- The error of `Close` is lost for a new file, and counts for one that was resumed.
abbrev closing_fails : Services ℕ ℕ World
closing_fails = record services { should_save = λ w. (false, w); close_writer = λ w. (false, w) }

close_error_lost :
    (resume closing_fails []
      (1 ∷ [])
      none
      none
      (print_files 0 ((op_data (7 ∷ []), []) ∷ []))
      new_world).0.0
    ≡ none
unfolding resume
close_error_lost = refl
