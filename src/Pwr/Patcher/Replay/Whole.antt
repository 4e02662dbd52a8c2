-- ===== src/Pwr/Patcher/Replay/Whole.antt =====
-- All files of a patch of rsync series (pwr/patcher/patcher.go).
use wharf.Base.{
  ℕ, suc, ◌+◌, Bool, true, false, Option, none, some, List, [], ◌∷◌, length, ◌≡◌, refl, sym, ap,
  ==_refl, arith, Bool-cases, inl, inr, if◌then◌else◌,
}
use mathlib.Core.Path.{subst}
use wharf.Pwr.Patcher.{
  rsync, Message, FileKind, no_kind, kind_rsync, call_failed, Checkpoint, Services, Outcome,
}
use wharf.Pwr.Patcher.Rsync.{start_rsync}
use wharf.Pwr.Patcher.Resume.{
  process_file, is_skipped, read_header, header_of, next_file, patch_file, patch_files, resume,
}
use wharf.Pwr.Patcher.Replay.{
  print_ops, FileOps, print_file, print_files, next, Plays, plan_file, plan_files, unskipped, Known,
}
use wharf.Pwr.Patcher.Replay.Ops.{read_until_end_marker-print_ops, start_rsync-Plays}

-- The outcome is the plan's, and if all went well, so many files were touched.
abbrev pub PlaysAll : {S : Type 0} → Outcome S × ℕ → Bool × S → ℕ → Type 0
PlaysAll r plan n = Plays r.0 plan [] × (plan.0 ≡ true → r.1 ≡ n)

plus_zero : (n : ℕ) → n ≡ n + 0
plus_zero n = omega arith

plus_zero_left : (n : ℕ) → n ≡ 0 + n
plus_zero_left n = omega arith

plus_suc : (n m : ℕ) → (n + 1) + m ≡ n + suc m
plus_suc n m = omega arith

module _ {B W S : Type 0} (env : Services B W S) (quiet : (s : S) → env.should_save s ≡ (false, s))
    (target source : List ℕ) (whitelist : Option (ℕ → Bool)) where
  abbrev at_file : ℕ → FileKind → Option B → Checkpoint B W
  at_file i kind b = record {
    file_index = i;
    file_kind = kind;
    sync_header = none;
    message_checkpoint = [];
    bowl_checkpoint = b;
    rsync_checkpoint = none;
    bsdiff_checkpoint = none;
  }

  abbrev Go : Type 0
  Go = ℕ → Checkpoint B W → List Message → S → ℕ → Outcome S × ℕ

  abbrev go : Go
  go = patch_files env target source whitelist

  -- The loop behind a file
  abbrev behind : ℕ → Checkpoint B W → ℕ → Outcome S × ℕ → Outcome S × ℕ
  behind left c touched r = elim r.0.0 [
    | some e ↦ ((some e, r.0.1, r.0.2), touched + r.1)
    | none ↦ go left c r.0.1 r.0.2 (touched + r.1)
  ]

  -- What a file adds to `touchedFiles`
  abbrev counted : Outcome S → Outcome S × ℕ
  counted o = (o, elim o.0 [ none ↦ 1 | some e ↦ 0 ])

  go-patch_file :
      (left i : ℕ) (kind : FileKind) (b : Option B) (f : FileOps) (rest : List Message) (s : S)
      (touched : ℕ)
      → go (suc left) (at_file i kind b) (print_file i f rest) s touched
        ≡ behind left (at_file (suc i) kind_rsync b) touched (
            patch_file env target source whitelist
              (at_file i kind_rsync b)
              (record { file_index = i; series = rsync })
              (print_ops (f.0 ∷ f.1) rest)
              s)
  unfolding patch_files header_of read_header next_file
  go-patch_file left i kind b f rest s touched = rw (patch_files, ==_refl i)

  patch_file-skip :
      (i : ℕ) (b : Option B) (f : FileOps) (rest : List Message) (s : S)
      → is_skipped env target source whitelist i ≡ true
      → patch_file env target source whitelist
          (at_file i kind_rsync b)
          (record { file_index = i; series = rsync })
          (print_ops (f.0 ∷ f.1) rest)
          s
        ≡ ((none, rest, s), 0)
  unfolding patch_file
  patch_file-skip i b f rest s e =
      rw (patch_file, e) (ap (λ o. (o, 0)) (read_until_end_marker-print_ops (f.0 ∷ f.1) rest s))

  patch_file-start :
      (i : ℕ) (b : Option B) (f : FileOps) (rest : List Message) (s : S)
      → is_skipped env target source whitelist i ≡ false
      → patch_file env target source whitelist
          (at_file i kind_rsync b)
          (record { file_index = i; series = rsync })
          (print_ops (f.0 ∷ f.1) rest)
          s
        ≡ counted (
            start_rsync env target source
              (record { file_index = i; series = rsync })
              (print_ops (f.0 ∷ f.1) rest)
              s)
  unfolding patch_file process_file
  patch_file-start i b f rest s e = rw (patch_file, e)

  behind-PlaysAll :
      (left : ℕ) (c : Checkpoint B W) (touched n : ℕ) (o : Outcome S) (r : Bool × S)
      (rest : List Message) (q : S → Bool × S)
      → Plays o r rest
      → ((s : S) → PlaysAll (go left c rest s (touched + 1)) (q s) n)
      → PlaysAll (behind left c touched (counted o)) (next r q) n
  behind-PlaysAll left c touched n o (true, s) rest q h k =
      subst (λ o. PlaysAll (behind left c touched (counted o)) (q s) n) (sym h) (k s)
  behind-PlaysAll left c touched n o (false, s) rest q h k =
      rw (behind, h.0) ((refl, h.1), λ x. absurd cc)

  go-PlaysAll :
      (fs : List FileOps) (i : ℕ) (kind : FileKind) (b : Option B) (s : S) (touched : ℕ)
      → Known env target source (is_skipped env target source whitelist) i fs
      → PlaysAll
          (go (length fs) (at_file i kind b) (print_files i fs) s touched)
          (plan_files env target source (is_skipped env target source whitelist) i fs s)
          (touched + unskipped env target source (is_skipped env target source whitelist) i fs)
  unfolding patch_files
  go-PlaysAll [] i kind b s touched known = (refl, λ x. omega arith)
  go-PlaysAll (f ∷ fs) i kind b s touched known =
      let skipped = is_skipped env target source whitelist in
      let c = at_file (suc i) kind_rsync b in
      let rest = print_files (suc i) fs in
      let step = go-patch_file (length fs) i kind b f rest s touched in
      let next_plan = plan_files env target source skipped (suc i) fs in
      elim (Bool-cases (skipped i)) [
        | inl e ↦
            rw (step, patch_file-skip i b f rest s e, plan_files, unskipped, e)
              (subst
                (λ t.
                  PlaysAll (go (length fs) c rest s t) (next_plan s)
                    (touched + unskipped env target source skipped (suc i) fs))
                (plus_zero touched) (go-PlaysAll fs (suc i) kind_rsync b s touched known.1))
        | inr e ↦
            rw (step, patch_file-start i b f rest s e, plan_files, unskipped, e)
              (behind-PlaysAll (length fs) c touched
                (touched + suc (unskipped env target source skipped (suc i) fs))
                (start_rsync env target source (record { file_index = i; series = rsync })
                  (print_ops (f.0 ∷ f.1) rest) s)
                (plan_file env target source skipped i f s) rest next_plan
                (start_rsync-Plays env quiet target source skipped i f.0 f.1 rest s known.0.0
                  known.0.1)
                (λ s'.
                  subst (PlaysAll (go (length fs) c rest s' (touched + 1)) (next_plan s'))
                    (plus_suc touched (unskipped env target source skipped (suc i) fs))
                    (go-PlaysAll fs (suc i) kind_rsync b s' (touched + 1) known.1)))
      ]

  -- Behind the bowl's `Resume`
  opened :
      (r : Bool × S) (ms : List Message) (play : S → Outcome S × ℕ) (plan : S → Bool × S) (n : ℕ)
      → ((s : S) → PlaysAll (play s) (plan s) n)
      → PlaysAll (if r.0 then play r.1 else ((some call_failed, ms, r.1), 0)) (next r plan) n
  opened (true, s) ms play plan n h = h s
  opened (false, s) ms play plan n h = ((refl, refl), λ x. absurd cc)

  -- A patch of rsync series, one for each new file, whose first operations are of old files that
  -- there are, patched from the beginning with a consumer that never wants a checkpoint: the calls
  -- are those of the plan. A file that is not on the whitelist is passed over; one whose first
  -- operation is a whole old file is transposed, with what follows ignored; any other is written by
  -- its operations, finalized and closed. The first call that fails ends the patch with its error;
  -- if none does, no message is left, and the files that were not passed over were touched.
  pub resume-plan_files :
      (fs : List FileOps) (s : S)
      → length source ≡ length fs
      → Known env target source (is_skipped env target source whitelist) 0 fs
      → PlaysAll
          (resume env target source whitelist none (print_files 0 fs) s)
          (next
            (env.resume_bowl none s)
            (plan_files env target source (is_skipped env target source whitelist) 0 fs))
          (unskipped env target source (is_skipped env target source whitelist) 0 fs)
  unfolding resume
  resume-plan_files fs s lengths known =
      rw
        (
          resume,
          lengths,
          plus_zero_left
              (unskipped env target source (is_skipped env target source whitelist) 0 fs),
        )
        (opened (env.resume_bowl none s) (print_files 0 fs)
          (λ s. go (length fs) (at_file 0 no_kind none) (print_files 0 fs) s 0)
          (plan_files env target source (is_skipped env target source whitelist) 0 fs)
          (0 + unskipped env target source (is_skipped env target source whitelist) 0 fs)
          (λ s. go-PlaysAll fs 0 no_kind none s 0 known))
