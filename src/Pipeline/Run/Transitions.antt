-- ===== src/Pipeline/Run/Transitions.antt =====
-- The ways in which a step of a run can end (engine/src/ops.rs, `run_pipeline`), as a relation.
use mysql_ssh_db_sync.Prelude.{
  ℕ, ◌≡◌, ◌⊎◌, refl, inl, inr, Bool, Option, none, some, List, ◌∷◌, ◌++◌, Text, all, ok, err,
  Bool-cases, Option-cases,
}
use mysql_ssh_db_sync.Types.{ConnectionProfile}
use mysql_ssh_db_sync.Backup.{BackupRequest}
use mysql_ssh_db_sync.Restore.{RestoreRequest, is_destructive}
use mysql_ssh_db_sync.Retention.{RetentionPolicy}
use mysql_ssh_db_sync.Mask.{MaskRule, MaskingCoverage, MaskingReport}
use mysql_ssh_db_sync.Verify.{VerificationReport}
use mysql_ssh_db_sync.Step.{JobStepKind}
use mysql_ssh_db_sync.Pipeline.{
  ArtifactSource, previous_step, newest_in_directory, file, BackupStep, RestoreStep, DrillStep,
  PipelineStep, backup, restore, verify, mask, push_offsite, retention, drill, profile_id,
}
use mysql_ssh_db_sync.Pipeline.Connections.{profile_of}
use mysql_ssh_db_sync.Pipeline.Run.{
  PipelineRunRequest, PushResult, succeeded, VerifyRequest, DrillRequest, DrillOutcome,
  profile_not_found, failed, panicked, Answer, began, finished, skipped, backed_up, restored,
  masked, verified, pushed, pruned, drilled, Operations, none_or_passed, Machine, note, Progress,
  going, stopped,
}
use mysql_ssh_db_sync.Pipeline.Run.Prepare.{lookup, lift, find_profile}
use mysql_ssh_db_sync.Pipeline.Run.Walk.{
  after_backup, after_restore, after_mask, after_verify, after_push, after_drill, take_confirmation,
  call_backup, artifact_of, call_restore, call_mask, mask_step, call_verify, verify_step, call_push,
  call_retention, retention_step, call_drill, with_value, present, run_step,
}

-- What `state` lacks for a verification.
abbrev pub CannotVerify : Machine → Type 0
CannotVerify m =
    (m.state.backup ≡ none)
    ⊎ (m.state.source ≡ none)
    ⊎ (m.state.target ≡ none)
    ⊎ (m.state.dest ≡ none)

-- The walk when a restore has been answered.
abbrev pub restored_with :
    Machine → ConnectionProfile → RestoreRequest → List Text → Answer Text → Progress
restored_with m dest req left answer =
    after_restore
      (record m {
        confirmations = left;
        log = restored dest req answer ∷ began JobStepKind.restore ∷ m.log;
      })
      dest answer

pub data Transition (profiles : List ConnectionProfile) (known : Option BackupRequest) (m : Machine)
    : PipelineStep → Progress → Type 0 where
  no_profile :
      (step : PipelineStep) (id : ℕ)
      → profile_id step ≡ some id
      → profile_of profiles id ≡ none
      → Transition profiles known m step (stopped m (profile_not_found id))
  no_request :
      (b : BackupStep) → known ≡ none → Transition profiles known m (backup b) (stopped m panicked)
  backs_up :
      (b : BackupStep) (source : ConnectionProfile) (req : BackupRequest) (answer : Answer Text)
      → Transition profiles known m (backup b) (
          after_backup
            (note (note m (began JobStepKind.backup)) (backed_up source req answer))
            source
            req
            answer)
  no_artifact :
      (r : RestoreStep)
      → r.source ≡ previous_step
      → m.state.artifact ≡ none
      → Transition profiles known m (restore r) (stopped m panicked)
  no_newest :
      (r : RestoreStep) (e : ℕ) → Transition profiles known m (restore r) (stopped m (failed e))
  restores :
      (r : RestoreStep) (dest : ConnectionProfile) (artifact : Text) (answer : Answer Text)
      (typed : Option Text) (left : List Text)
      → take_confirmation (is_destructive r.naming) m.confirmations ≡ (typed, left)
      → (req : RestoreRequest) → req.naming ≡ r.naming
      → req.typed_confirmation ≡ typed
      → Transition profiles known m (restore r) (restored_with m dest req left answer)
  masks :
      (rules : List MaskRule) (dest : ConnectionProfile) (target : Text)
      (coverage : MaskingCoverage) (answer : Answer MaskingReport)
      → Transition profiles known m (mask rules) (
          after_mask
            (note (note m (began JobStepKind.mask)) (masked dest target coverage answer))
            coverage
            answer)
  skips_mask :
      (rules : List MaskRule) (reason : Text)
      → Transition profiles known m (mask rules) (going (note m (skipped JobStepKind.mask reason)))
  verifies :
      (deep : Bool) (req : VerifyRequest) (answer : Answer VerificationReport)
      → Transition profiles known m
          (verify deep)
          (after_verify (note (note m (began JobStepKind.verify)) (verified req answer)) answer)
  cannot_verify :
      (deep : Bool)
      → CannotVerify m
      → Transition profiles known m (verify deep) (stopped m panicked)
  pushes :
      (artifact : Text) (answer : Answer (List PushResult))
      → Transition profiles known m push_offsite
          (after_push (note (note m (began JobStepKind.offsite)) (pushed artifact answer)) answer)
  cannot_push :
      m.state.artifact ≡ none → Transition profiles known m push_offsite (stopped m panicked)
  prunes :
      (policy : RetentionPolicy) (dir : Text) (removed : List Text)
      → Transition profiles known m (retention policy) (
          going (record m {
            outcome = record m.outcome {
              removed_artifacts = m.outcome.removed_artifacts ++ removed;
            };
            log =
                finished JobStepKind.retention
                ∷ pruned dir policy removed
                ∷ began JobStepKind.retention
                ∷ m.log;
          }))
  keeps :
      (policy : RetentionPolicy) (reason : Text)
      → Transition profiles known m
          (retention policy)
          (going (note m (skipped JobStepKind.retention reason)))
  cannot_prune :
      (policy : RetentionPolicy)
      → m.state.output_dir ≡ none
      → Transition profiles known m (retention policy) (stopped m panicked)
  drills :
      (d : DrillStep) (dest : ConnectionProfile) (req : DrillRequest) (answer : Answer DrillOutcome)
      → Transition profiles known m
          (drill d)
          (after_drill (note (note m (began JobStepKind.drill)) (drilled dest req answer)) answer)

module _ (profiles : List ConnectionProfile) (known : Option BackupRequest) (m : Machine)
    (step : PipelineStep) where
  -- Through `with_value`, on a value that is there or is not.
  with_profile :
      (id : ℕ) (k : ConnectionProfile → Progress)
      → profile_id step ≡ some id
      → ((p : ConnectionProfile) → Transition profiles known m step (k p))
      → Transition profiles known m step (with_value m (find_profile profiles id) k)
  with_profile id k e f = elim (Option-cases (profile_of profiles id)) [
    | inl missing ↦ rw missing (no_profile step id e missing)
    | inr (p, found) ↦ rw found (f p)
  ]

  with_present :
      {A : Type 0} (o : Option A) (k : A → Progress)
      → (o ≡ none → Transition profiles known m step (stopped m panicked))
      → ((a : A) → Transition profiles known m step (k a))
      → Transition profiles known m step (with_value m (present o) k)
  with_present none k f g = f refl
  with_present (some a) k f g = g a

  with_artifact :
      (ops : Operations) (request : PipelineRunRequest) (source : ArtifactSource)
      (k : Text → Progress)
      → (source ≡ previous_step
          → m.state.artifact ≡ none
          → Transition profiles known m step (stopped m panicked))
      → ((e : ℕ) → Transition profiles known m step (stopped m (failed e)))
      → ((a : Text) → Transition profiles known m step (k a))
      → Transition profiles known m step (with_value m (artifact_of ops request m source) k)
  unfolding artifact_of
  with_artifact ops request previous_step k f g h = with_present m.state.artifact k (f refl) h
  with_artifact ops request (file path) k f g h = h path
  with_artifact ops request (newest_in_directory dir) k f g h =
      answered (ops.newest_artifact m.log dir)
    where
      answered : (a : Answer Text) → Transition profiles known m step (with_value m (lift a) k)
      answered (ok path) = h path
      answered (err e) = g e

module _ (ops : Operations) (request : PipelineRunRequest) (profiles : List ConnectionProfile)
    (known : Option BackupRequest) (m : Machine) where
  mask_step-Transition :
      (rules : List MaskRule) (coverage : Option MaskingCoverage) (target : Option Text)
      (dest : Option ConnectionProfile)
      → Transition profiles known m (mask rules) (mask_step ops request m coverage target dest)
  unfolding mask_step call_mask
  mask_step-Transition rules (some coverage) (some target) (some dest) =
      masks rules dest target coverage _
  mask_step-Transition rules (some coverage) (some target) none = skips_mask rules _
  mask_step-Transition rules (some coverage) none dest = skips_mask rules _
  mask_step-Transition rules none target dest = skips_mask rules _

  retention_step-Transition :
      (policy : RetentionPolicy) (dir : Text)
      → Transition profiles known m (retention policy) (retention_step ops request m policy dir)
  unfolding retention_step call_retention
  retention_step-Transition policy dir = elim (Bool-cases (none_or_passed m.outcome.verification)) [
    | inr bad ↦ rw bad (keeps policy _)
    | inl fine ↦ elim (Bool-cases (all succeeded m.outcome.offsite)) [
      | inr bad ↦ rw (fine, bad) (keeps policy _)
      | inl copied ↦ rw (fine, copied) (prunes policy dir _)
    ]
  ]

  verify_step-Transition :
      (deep : Bool) (req : Option BackupRequest) (source : Option ConnectionProfile)
      (target : Option Text) (dest : Option ConnectionProfile)
      → ((req ≡ none) ⊎ (source ≡ none) ⊎ (target ≡ none) ⊎ (dest ≡ none) → CannotVerify m)
      → Transition profiles known m
          (verify deep)
          (verify_step ops request m req source target dest deep)
  unfolding verify_step call_verify
  verify_step-Transition deep (some req) (some source) (some target) (some dest) f =
      verifies deep _ _
  verify_step-Transition deep (some req) (some source) (some target) none f =
      cannot_verify deep (f (inr (inr (inr refl))))
  verify_step-Transition deep (some req) (some source) none dest f =
      cannot_verify deep (f (inr (inr (inl refl))))
  verify_step-Transition deep (some req) none target dest f =
      cannot_verify deep (f (inr (inl refl)))
  verify_step-Transition deep none source target dest f = cannot_verify deep (f (inl refl))

pub run_step-Transition :
    (ops : Operations) (request : PipelineRunRequest) (profiles : List ConnectionProfile)
    (resolved : List (ℕ × BackupRequest)) (coverages : List (ℕ × Option MaskingCoverage))
    (m : Machine) (i : ℕ) (step : PipelineStep)
    → Transition profiles
        (lookup i resolved)
        m
        step
        (run_step ops request profiles resolved coverages m i step)
unfolding run_step call_backup call_restore call_push call_drill
run_step-Transition ops request profiles resolved coverages m i (backup b) =
    with_profile profiles (lookup i resolved) m (backup b) b.profile_id _ refl (λ source.
      with_present profiles (lookup i resolved) m (backup b) (lookup i resolved) _ (no_request b)
        (λ req. backs_up b source req _))
run_step-Transition ops request profiles resolved coverages m i (restore r) =
    with_profile profiles (lookup i resolved) m (restore r) r.profile_id _ refl (λ dest.
      with_artifact profiles (lookup i resolved) m (restore r) ops request r.source _
        (no_artifact r) (no_newest r) (λ artifact. restores r dest artifact _ _ _ refl _ refl refl))
run_step-Transition ops request profiles resolved coverages m i (mask rules) =
    mask_step-Transition ops request profiles (lookup i resolved) m rules _ _ _
run_step-Transition ops request profiles resolved coverages m i (verify deep) =
    verify_step-Transition ops request profiles (lookup i resolved) m deep _ _ _ _ (λ e. e)
run_step-Transition ops request profiles resolved coverages m i push_offsite =
    with_present profiles (lookup i resolved) m push_offsite m.state.artifact _ cannot_push
      (λ artifact. pushes artifact _)
run_step-Transition ops request profiles resolved coverages m i (retention policy) =
    with_present profiles (lookup i resolved) m (retention policy) m.state.output_dir _
      (cannot_prune policy)
      (λ dir. retention_step-Transition ops request profiles (lookup i resolved) m policy dir)
run_step-Transition ops request profiles resolved coverages m i (drill d) =
    with_profile profiles (lookup i resolved) m (drill d) d.profile_id _ refl
      (λ dest. drills d dest _ _)
