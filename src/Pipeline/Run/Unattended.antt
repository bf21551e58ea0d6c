-- ===== src/Pipeline/Run/Unattended.antt =====
-- An unattended run (engine/src/scheduler.rs, `perform_pipeline`, and engine/src/ops.rs,
-- `run_pipeline`) drops what was authorised and nothing else.
use mysql_ssh_db_sync.Prelude.{
  ℕ, ◌≡◌, sym, ◌∙◌, true, Option, some, List, [], ◌∷◌, Text, All, IsLine, ok, err,
}
use mysql_ssh_db_sync.Types.{ConnectionProfile}
use mysql_ssh_db_sync.Backup.{BackupRequest}
use mysql_ssh_db_sync.Restore.{
  TargetNaming, new_timestamped, drop_and_recreate, into_existing, is_destructive,
}
use mysql_ssh_db_sync.Pipeline.{
  PipelineStep, Pipeline, targets_of, dropped_by, confirmations, is_armed,
}
use mysql_ssh_db_sync.Pipeline.Arming.{armed-confirmations}
use mysql_ssh_db_sync.Pipeline.Run.{
  PipelineRunRequest, OpError, Event, restored, Operations, Machine, Progress, going, stopped,
}
use mysql_ssh_db_sync.Pipeline.Run.Walk.{
  after_backup, after_restore, after_mask, after_verify, after_push, after_drill, take_confirmation,
  run_steps, run_pipeline, at_start,
}
use mysql_ssh_db_sync.Pipeline.Run.Journal.{EachAfter, log_of, Ends, Ends-map, run_steps-Ends}
use mysql_ssh_db_sync.Pipeline.Run.Transitions.{
  Transition, no_profile, no_request, backs_up, no_artifact, no_newest, restores, masks, skips_mask,
  verifies, cannot_verify, pushes, cannot_push, prunes, keeps, cannot_prune, drills,
  run_step-Transition,
}
use mysql_ssh_db_sync.Pipeline.Run.Preparation.{run_pipeline-Ends}

-- Whether a restore that drops a database was given that database's name to confirm it.
abbrev pub NamesItself : List Event → Event → Type 0
NamesItself before (restored dest req answer) =
    (name : Text) → req.naming ≡ drop_and_recreate name → req.typed_confirmation ≡ some name
NamesItself before _ = Unit

abbrev Supplied : List PipelineStep → Machine → Type 0
Supplied rest m = (m.confirmations ≡ targets_of rest) × EachAfter NamesItself m.log

abbrev AllNamed : Machine → OpError → Type 0
AllNamed m e = EachAfter NamesItself m.log

-- The confirmation that is taken, and those left, if they are the targets of the steps ahead.
taken :
    (naming : TargetNaming) (rest : List PipelineStep) (typed : Option Text) (left : List Text)
    → take_confirmation (is_destructive naming) (dropped_by naming (targets_of rest))
      ≡ (typed, left)
    → (left ≡ targets_of rest)
      × ((name : Text) → naming ≡ drop_and_recreate name → typed ≡ some name)
unfolding take_confirmation dropped_by
taken (new_timestamped prefix) rest typed left h = (cc, λ name e. cc)
taken (into_existing target) rest typed left h = (cc, λ name e. cc)
taken (drop_and_recreate target) rest typed left h = (cc, λ name e. cc)

module _ (profiles : List ConnectionProfile) (known : Option BackupRequest) (m : Machine)
    (rest : List PipelineStep) where
  supplies :
      {step : PipelineStep} {p : Progress}
      → Transition profiles known m step p
      → Supplied (step ∷ rest) m
      → Ends (Supplied rest) AllNamed p
  unfolding after_backup after_restore after_mask after_verify after_push after_drill targets_of
  supplies (no_profile step id e missing) h = h.1
  supplies (no_request b missing) h = h.1
  supplies (backs_up b source req (err e)) h = (tt, (tt, h.1))
  supplies (backs_up b source req (ok artifact)) h = (h.0, (tt, (tt, (tt, h.1))))
  supplies (no_artifact r previous missing) h = h.1
  supplies (no_newest r e) h = h.1
  supplies (restores r dest artifact (err e) typed left t req n c) h =
      let (same, named) = taken r.naming rest typed left (rw h.0 at t) in
      ((λ name k. c ∙ named name (sym n ∙ k)), (tt, h.1))
  supplies (restores r dest artifact (ok target) typed left t req n c) h =
      let (same, named) = taken r.naming rest typed left (rw h.0 at t) in
      (same, (tt, ((λ name k. c ∙ named name (sym n ∙ k)), (tt, h.1))))
  supplies (masks rules dest target coverage (err e)) h = (tt, (tt, h.1))
  supplies (masks rules dest target coverage (ok report)) h = (h.0, (tt, (tt, (tt, h.1))))
  supplies (skips_mask rules reason) h = (h.0, (tt, h.1))
  supplies (verifies deep req (err e)) h = (tt, (tt, h.1))
  supplies (verifies deep req (ok report)) h = (h.0, (tt, (tt, (tt, h.1))))
  supplies (cannot_verify deep missing) h = h.1
  supplies (pushes artifact (err e)) h = (tt, (tt, h.1))
  supplies (pushes artifact (ok results)) h = (h.0, (tt, (tt, (tt, h.1))))
  supplies (cannot_push missing) h = h.1
  supplies (prunes policy dir removed) h = (h.0, (tt, (tt, (tt, h.1))))
  supplies (keeps policy reason) h = (h.0, (tt, h.1))
  supplies (cannot_prune policy missing) h = h.1
  supplies (drills d dest req (err e)) h = (tt, (tt, h.1))
  supplies (drills d dest req (ok outcome)) h = (h.0, (tt, (tt, (tt, h.1))))

log_NamesItself : (p : Progress) → Ends (Supplied []) AllNamed p → EachAfter NamesItself (log_of p)
log_NamesItself (going m) h = h.1
log_NamesItself (stopped m e) h = h

-- An unattended run of an armed chain, with the confirmations that its permission stands for, asks for
-- every restore that drops a database with that database's own name as the confirmation, if the
-- names are whole lines.
pub unattended-NamesItself :
    (ops : Operations) (request : PipelineRunRequest) (p : Pipeline)
    → All IsLine (targets_of p.steps)
    → is_armed p ≡ true
    → request.typed_confirmations ≡ confirmations p
    → EachAfter NamesItself (log_of (run_pipeline ops request p))
unattended-NamesItself ops request p l a same = log_NamesItself (run_pipeline ops request p) (
    run_pipeline-Ends ops request p (Supplied []) AllNamed (λ e k. tt)
      (λ profiles resolved coverages valid found.
        Ends-map (λ m. ℕ × Supplied [] m) (Supplied []) AllNamed (λ m h. h.1)
          (run_steps ops request profiles resolved coverages (at_start ops request) 0 p.steps)
          (run_steps-Ends ops request profiles resolved coverages (λ i. Supplied) AllNamed
            (λ m i step rest h. (
              h.1,
              supplies profiles _ m rest
                  (run_step-Transition ops request profiles resolved coverages m i step) h,
            ))
            (at_start ops request) 0 p.steps (same ∙ (armed-confirmations p l a).1, tt))))
