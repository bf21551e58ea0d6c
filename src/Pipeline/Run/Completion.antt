-- ===== src/Pipeline/Run/Completion.antt =====
-- What a run has done when it ends (engine/src/ops.rs, `run_pipeline`).
use mysql_ssh_db_sync.Prelude.{
  ℕ, ◌≡◌, refl, sym, ◌∙◌, Option, List, [], ◌∷◌, ◌++◌, append-nil, append_assoc, map, ok, err,
}
use mysql_ssh_db_sync.Types.{ConnectionProfile}
use mysql_ssh_db_sync.Backup.{BackupRequest}
use mysql_ssh_db_sync.Step.{JobStepKind}
use mysql_ssh_db_sync.Pipeline.{
  PipelineStep, backup, restore, verify, mask, push_offsite, retention, drill, Pipeline,
}
use mysql_ssh_db_sync.Pipeline.Run.{
  kind, PipelineRunRequest, OpError, Event, finished, skipped, backed_up, restored, masked,
  verified, pushed, pruned, drilled, Operations, Machine, Progress, going, stopped,
}
use mysql_ssh_db_sync.Pipeline.Run.Walk.{
  after_backup, after_restore, after_mask, after_verify, after_push, after_drill, run_steps,
  run_pipeline, at_start,
}
use mysql_ssh_db_sync.Pipeline.Run.Journal.{EachAfter, Ends, Ends-map, run_steps-Ends}
use mysql_ssh_db_sync.Pipeline.Run.Transitions.{
  Transition, no_profile, no_request, backs_up, no_artifact, no_newest, restores, masks, skips_mask,
  verifies, cannot_verify, pushes, cannot_push, prunes, keeps, cannot_prune, drills,
  run_step-Transition,
}
use mysql_ssh_db_sync.Pipeline.Run.Preparation.{run_pipeline-Ends}

-- The kinds of the steps that were recorded as finished or skipped, in the order of the records.
abbrev pub settled : List Event → List JobStepKind
settled [] = []
settled (finished k ∷ before) = settled before ++ (k ∷ [])
settled (skipped k reason ∷ before) = settled before ++ (k ∷ [])
settled (_ ∷ before) = settled before

-- The last call was one of this kind, and its operation answered.
abbrev pub AnsweredBy : JobStepKind → List Event → Type 0
AnsweredBy JobStepKind.backup (backed_up source req (ok artifact) ∷ before) = Unit
AnsweredBy JobStepKind.restore (restored dest req (ok target) ∷ before) = Unit
AnsweredBy JobStepKind.mask (masked dest target coverage (ok report) ∷ before) = Unit
AnsweredBy JobStepKind.verify (verified req (ok report) ∷ before) = Unit
AnsweredBy JobStepKind.offsite (pushed artifact (ok results) ∷ before) = Unit
AnsweredBy JobStepKind.retention (pruned dir policy removed ∷ before) = Unit
AnsweredBy JobStepKind.drill (drilled dest req (ok outcome) ∷ before) = Unit
AnsweredBy _ _ = ⊥

abbrev pub MaySkip : JobStepKind → Type 0
MaySkip JobStepKind.mask = Unit
MaySkip JobStepKind.retention = Unit
MaySkip _ = ⊥

-- A record of a finished step follows its operation's answer, and only some steps are skipped.
abbrev pub Earned : List Event → Event → Type 0
Earned before (finished k) = AnsweredBy k before
Earned before (skipped k reason) = MaySkip k
Earned before _ = Unit

module _ (all_steps : List PipelineStep) where
  abbrev InStep : List PipelineStep → Machine → Type 0
  InStep rest m = (settled m.log ++ map kind rest ≡ map kind all_steps) × EachAfter Earned m.log

  abbrev Stuck : Machine → OpError → Type 0
  Stuck m e = (rest : List PipelineStep) × InStep rest m

  settles :
      (step : PipelineStep) (rest : List PipelineStep) (log : List Event)
      → settled log ++ map kind (step ∷ rest) ≡ map kind all_steps
      → (settled log ++ (kind step ∷ [])) ++ map kind rest ≡ map kind all_steps
  settles step rest log h = append_assoc (settled log) (kind step ∷ []) (map kind rest) ∙ h

  module _ (profiles : List ConnectionProfile) (known : Option BackupRequest) (m : Machine)
      (rest : List PipelineStep) where
    moves_on :
        {step : PipelineStep} {p : Progress}
        → Transition profiles known m step p
        → InStep (step ∷ rest) m
        → Ends (InStep rest) Stuck p
    unfolding after_backup after_restore after_mask after_verify after_push after_drill
    moves_on (no_profile step id e missing) h = (step ∷ rest, h)
    moves_on (no_request b missing) h = (backup b ∷ rest, h)
    moves_on (backs_up b source req (err e)) h = (backup b ∷ rest, (h.0, (tt, (tt, h.1))))
    moves_on (backs_up b source req (ok artifact)) h =
        (settles (backup b) rest m.log h.0, (tt, (tt, (tt, h.1))))
    moves_on (no_artifact r previous missing) h = (restore r ∷ rest, h)
    moves_on (no_newest r e) h = (restore r ∷ rest, h)
    moves_on (restores r dest artifact (err e) typed left t req n c) h =
        (restore r ∷ rest, (h.0, (tt, (tt, h.1))))
    moves_on (restores r dest artifact (ok target) typed left t req n c) h =
        (settles (restore r) rest m.log h.0, (tt, (tt, (tt, h.1))))
    moves_on (masks rules dest target coverage (err e)) h =
        (mask rules ∷ rest, (h.0, (tt, (tt, h.1))))
    moves_on (masks rules dest target coverage (ok report)) h =
        (settles (mask rules) rest m.log h.0, (tt, (tt, (tt, h.1))))
    moves_on (skips_mask rules reason) h = (settles (mask rules) rest m.log h.0, (tt, h.1))
    moves_on (verifies deep req (err e)) h = (verify deep ∷ rest, (h.0, (tt, (tt, h.1))))
    moves_on (verifies deep req (ok report)) h =
        (settles (verify deep) rest m.log h.0, (tt, (tt, (tt, h.1))))
    moves_on (cannot_verify deep missing) h = (verify deep ∷ rest, h)
    moves_on (pushes artifact (err e)) h = (push_offsite ∷ rest, (h.0, (tt, (tt, h.1))))
    moves_on (pushes artifact (ok results)) h =
        (settles push_offsite rest m.log h.0, (tt, (tt, (tt, h.1))))
    moves_on (cannot_push missing) h = (push_offsite ∷ rest, h)
    moves_on (prunes policy dir removed) h =
        (settles (retention policy) rest m.log h.0, (tt, (tt, (tt, h.1))))
    moves_on (keeps policy reason) h = (settles (retention policy) rest m.log h.0, (tt, h.1))
    moves_on (cannot_prune policy missing) h = (retention policy ∷ rest, h)
    moves_on (drills d dest req (err e)) h = (drill d ∷ rest, (h.0, (tt, (tt, h.1))))
    moves_on (drills d dest req (ok outcome)) h =
        (settles (drill d) rest m.log h.0, (tt, (tt, (tt, h.1))))

-- What a run has recorded when it ends.
abbrev pub RecordsOf : List PipelineStep → Progress → Type 0
RecordsOf steps (going m) = (settled m.log ≡ map kind steps) × EachAfter Earned m.log
RecordsOf steps (stopped m e) =
    (rest : List JobStepKind) × (settled m.log ++ rest ≡ map kind steps) × EachAfter Earned m.log

records :
    (steps : List PipelineStep) (p : Progress)
    → Ends (InStep steps []) (Stuck steps) p
    → RecordsOf steps p
records steps (going m) h = (sym (append-nil (settled m.log)) ∙ h.0, h.1)
records steps (stopped m e) h = (map kind h.0, h.1.0, h.1.1)

-- A run that succeeds has recorded each of the chain's steps once, in the order of the chain, and one
-- that fails has recorded the first of them; a step is recorded as finished only right after its
-- operation has answered with success, and only a masking or a retention is ever skipped.
pub run_pipeline-RecordsOf :
    (ops : Operations) (request : PipelineRunRequest) (p : Pipeline)
    → RecordsOf p.steps (run_pipeline ops request p)
run_pipeline-RecordsOf ops request p = records p.steps (run_pipeline ops request p) (
    run_pipeline-Ends ops request p (InStep p.steps []) (Stuck p.steps)
      (λ e k. (p.steps, (refl, tt)))
      (λ profiles resolved coverages valid found.
        Ends-map (λ m. ℕ × InStep p.steps [] m) (InStep p.steps []) (Stuck p.steps) (λ m h. h.1)
          (run_steps ops request profiles resolved coverages (at_start ops request) 0 p.steps)
          (run_steps-Ends ops request profiles resolved coverages (λ i rest. InStep p.steps rest)
            (Stuck p.steps)
            (λ m i step rest h. (
              (step ∷ rest, h),
              moves_on p.steps profiles _ m rest
                  (run_step-Transition ops request profiles resolved coverages m i step) h,
            ))
            (at_start ops request) 0 p.steps (refl, tt))))
