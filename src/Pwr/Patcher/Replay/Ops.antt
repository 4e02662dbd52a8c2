-- ===== src/Pwr/Patcher/Replay/Ops.antt =====
-- One file of rsync series, from its first operation to its end marker
-- (pwr/patcher/patcher_rsync.go).
use wharf.Base.{ℕ, Bool, true, false, none, some, List, [], ◌∷◌, ◌≡◌, refl, sym, ap}
use mathlib.Core.Path.{subst}
use wharf.Wsync.Types.{Operation, op_block_range, op_data}
use wharf.Pwr.Patcher.{
  block_range, data_op, hey_you_did_it, rsync, SyncHeader, Message, sync_op, Services, Outcome,
  is_full_file_op, read_until_end_marker, then_call, make_wop,
}
use wharf.Pwr.Patcher.Checkpoints.{save_if_due, close_new, finish_file}
use wharf.Pwr.Patcher.Rsync.{
  rsync_checkpoint_of, apply_op, relay_ops, patch_rsync, transpose_file, start_rsync,
}
use wharf.Pwr.Patcher.Replay.{
  sync_op_of, print_ops, next, Plays, apply_all, closing, write_file, transpose_first, is_full,
  plan_file,
}

pub then_call-Plays :
    {S : Type 0} (c : Bool × S) (ms rest : List Message) (k : S → Outcome S) (q : S → Bool × S)
    → ((s : S) → Plays (k s) (q s) rest)
    → Plays (then_call c ms k) (next c q) rest
then_call-Plays (true, s) ms rest k q h = h s
then_call-Plays (false, s) ms rest k q h = (refl, refl)

pub last_call-Plays :
    {S : Type 0} (c : Bool × S) (ms : List Message)
    → Plays (then_call c ms (λ s. (none, ms, s))) c ms
last_call-Plays (true, s) ms = refl
last_call-Plays (false, s) ms = (refl, refl)

ends :
    {S : Type 0} (c : Bool × S) (ms rest : List Message) {k : S → Outcome S}
    → ((s : S) → k s ≡ (none, rest, s))
    → Plays (then_call c ms k) c rest
ends (true, s) ms rest h = h s
ends (false, s) ms rest h = (refl, refl)

next-next :
    {S : Type 0} (c : Bool × S) (p q : S → Bool × S)
    → next (next c p) q ≡ next c (λ s. next (p s) q)
next-next (true, s) p q = refl
next-next (false, s) p q = refl

pub read_until_end_marker-print_ops :
    {S : Type 0} (os : List Operation) (rest : List Message) (s : S)
    → read_until_end_marker (print_ops os rest) s ≡ (none, rest, s)
unfolding read_until_end_marker
read_until_end_marker-print_ops [] rest s = refl
read_until_end_marker-print_ops (op_block_range file block span ∷ os) rest s =
    read_until_end_marker-print_ops os rest s
read_until_end_marker-print_ops (op_data bytes ∷ os) rest s =
    read_until_end_marker-print_ops os rest s

module _ {B W S : Type 0} (env : Services B W S)
    (quiet : (s : S) → env.should_save s ≡ (false, s)) where
  save_if_due-quiet : (make : B → W → S → _) (s : S) → save_if_due env make s ≡ (none, s)
  unfolding save_if_due
  save_if_due-quiet make s = rw (save_if_due, quiet s) (ap (λ r. (none, r.1)) (quiet s))

  relay_ops-end :
      (sh : SyncHeader) (rest : List Message) (s : S)
      → relay_ops env sh (print_ops [] rest) s ≡ finish_file env rest s
  unfolding relay_ops save_if_due
  relay_ops-end sh rest s =
      rw (relay_ops, quiet s)
        (ap (λ r. finish_file env rest r.1)
          (save_if_due-quiet (rsync_checkpoint_of env sh (sync_op hey_you_did_it ∷ rest)) s))

  relay_ops-op :
      (sh : SyncHeader) (o : Operation) (os : List Operation) (rest : List Message) (s : S)
      → relay_ops env sh (print_ops (o ∷ os) rest) s
        ≡ apply_op env (sync_op_of o) (print_ops os rest) s (relay_ops env sh (print_ops os rest))
  unfolding relay_ops save_if_due
  relay_ops-op sh (op_block_range file block span) os rest s =
      rw (relay_ops, quiet s)
        (ap
          (λ r.
            then_call (env.apply_single (op_block_range file block span) r.1) (print_ops os rest)
              (relay_ops env sh (print_ops os rest)))
          (save_if_due-quiet
            (rsync_checkpoint_of env sh (sync_op (block_range file block span) ∷ print_ops os rest))
            s))
  relay_ops-op sh (op_data bytes) os rest s =
      rw (relay_ops, quiet s)
        (ap
          (λ r.
            then_call (env.apply_single (op_data bytes) r.1) (print_ops os rest)
              (relay_ops env sh (print_ops os rest)))
          (save_if_due-quiet
            (rsync_checkpoint_of env sh (sync_op (data_op bytes) ∷ print_ops os rest)) s))

  first_op-Plays :
      (o : Operation) (sh : SyncHeader) (os : List Operation) (rest : List Message) (s : S)
      → ((s : S)
          → Plays
              (relay_ops env sh (print_ops os rest) s)
              (next (apply_all env os s) env.finalize)
              rest)
      → Plays
          (apply_op env (sync_op_of o) (print_ops os rest) s (relay_ops env sh (print_ops os rest)))
          (next (apply_all env (o ∷ os) s) env.finalize)
          rest
  unfolding apply_op make_wop
  first_op-Plays (op_block_range file block span) sh os rest s h =
      rw
        (next-next (env.apply_single (op_block_range file block span) s) (apply_all env os)
          env.finalize)
        (then_call-Plays (env.apply_single (op_block_range file block span) s) _ rest _ _ h)
  first_op-Plays (op_data bytes) sh os rest s h =
      rw (next-next (env.apply_single (op_data bytes) s) (apply_all env os) env.finalize)
        (then_call-Plays (env.apply_single (op_data bytes) s) _ rest _ _ h)

  relay_ops-Plays :
      (sh : SyncHeader) (os : List Operation) (rest : List Message) (s : S)
      → Plays (relay_ops env sh (print_ops os rest) s) (next (apply_all env os s) env.finalize) rest
  relay_ops-Plays sh [] rest s =
      subst (λ o. Plays o (env.finalize s) rest) (sym (relay_ops-end sh rest s))
        (last_call-Plays (env.finalize s) rest)
  relay_ops-Plays sh (o ∷ os) rest s =
      subst (λ r. Plays r (next (apply_all env (o ∷ os) s) env.finalize) rest)
        (sym (relay_ops-op sh o os rest s))
        (first_op-Plays o sh os rest s (relay_ops-Plays sh os rest))

  close_new-Plays :
      (o : Outcome S) (r : Bool × S) (rest : List Message)
      → Plays o r rest
      → Plays (close_new env o) (closing env r) rest
  unfolding close_new
  close_new-Plays o (true, s) rest h = ap (close_new env) h
  close_new-Plays o (false, s) rest h = (h.0, ap (λ s. (env.close_writer s).1) h.1)

  patch_rsync-Plays :
      (i : ℕ) (o : Operation) (os : List Operation) (rest : List Message) (s : S)
      → Plays
          (patch_rsync env
            (record { file_index = i; series = rsync })
            (sync_op_of o)
            (print_ops os rest)
            s)
          (write_file env i (o, os) s)
          rest
  unfolding patch_rsync
  patch_rsync-Plays i o os rest s =
      let sh : SyncHeader = record { file_index = i; series = rsync } in
      then_call-Plays (env.get_writer i s) (print_ops os rest) rest _ _ (λ s.
        then_call-Plays (env.resume_writer none s) (print_ops os rest) rest _ _ (λ s.
          close_new-Plays
            (apply_op env (sync_op_of o) (print_ops os rest) s
              (relay_ops env sh (print_ops os rest)))
            (next (apply_all env (o ∷ os) s) env.finalize) rest
            (first_op-Plays o sh os rest s (relay_ops-Plays sh os rest))))

  transpose_file-Plays :
      (i : ℕ) (o : Operation) (os : List Operation) (rest : List Message) (s : S)
      (target source : List ℕ)
      → is_full_file_op target source i (sync_op_of o) ≡ some true
      → Plays
          (transpose_file env
            (record { file_index = i; series = rsync })
            (sync_op_of o)
            (print_ops os rest)
            s)
          (transpose_first env i o s)
          rest
  unfolding transpose_file is_full_file_op
  transpose_file-Plays i (op_data bytes) os rest s target source h = absurd cc
  transpose_file-Plays i (op_block_range file block span) os rest s target source h =
      ends (env.transpose i file s) (print_ops os rest) rest
        (λ s. read_until_end_marker-print_ops os rest s)

  -- A file from its first operation
  pub start_rsync-Plays :
      (target source : List ℕ) (skipped : ℕ → Bool) (i : ℕ) (o : Operation) (os : List Operation)
      (rest : List Message) (s : S) (b : Bool)
      → is_full_file_op target source i (sync_op_of o) ≡ some b
      → Plays
          (start_rsync env target source
            (record { file_index = i; series = rsync })
            (print_ops (o ∷ os) rest)
            s)
          (plan_file env target source skipped i (o, os) s)
          rest
  unfolding start_rsync
  start_rsync-Plays target source skipped i o os rest s true e =
      rw (start_rsync, plan_file, is_full, e) (transpose_file-Plays i o os rest s target source e)
  start_rsync-Plays target source skipped i o os rest s false e =
      rw (start_rsync, plan_file, is_full, e) (patch_rsync-Plays i o os rest s)
