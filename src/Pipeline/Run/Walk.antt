-- ===== src/Pipeline/Run/Walk.antt =====
-- The walk over the steps of a chain (engine/src/ops.rs, `run_pipeline`).
use mysql_ssh_db_sync.Prelude.{
  or_else, ℕ, suc, Bool, true, false, not, Option, none, some, List, [], ◌∷◌, ◌++◌, Text, text, map,
  all, filter, if◌then◌else◌, ◌==◌, Result, ok, err, ◌>>=◌,
}
use mysql_ssh_db_sync.Types.{ConnectionProfile}
use mysql_ssh_db_sync.Backup.{BackupRequest, schema_only, mode_eq, tables_with_data}
use mysql_ssh_db_sync.Restore.{RestoreRequest, is_destructive}
use mysql_ssh_db_sync.Retention.{RetentionPolicy}
use mysql_ssh_db_sync.Mask.{MaskingCoverage, MaskingReport, tables}
use mysql_ssh_db_sync.Verify.{VerificationReport}
use mysql_ssh_db_sync.Pipeline.{
  ArtifactSource, previous_step, newest_in_directory, file, RestoreStep, DrillStep, PipelineStep,
  backup, restore, verify, mask, push_offsite, retention, drill, Pipeline,
}
use mysql_ssh_db_sync.Pipeline.Connections.{validate_against}
use mysql_ssh_db_sync.Pipeline.Run.{
  PipelineRunRequest, PushResult, succeeded, VerifyRequest, DrillRequest, DrillOutcome, OpError,
  cancelled, failed, panicked, Answer, pipeline, began, finished, skipped, backed_up, restored,
  masked, verified, pushed, pruned, drilled, Operations, none_or_passed, Machine, note, Progress,
  going, stopped,
}
use mysql_ssh_db_sync.Step.{JobStepKind}
use mysql_ssh_db_sync.Pipeline.Run.Prepare.{lookup, lift, find_profile, resolve_steps, plan_masking}

-- Goes on with a value, or stops with its error.
abbrev pub with_value : {A : Type 0} → Machine → Result OpError A → (A → Progress) → Progress
with_value m (ok a) k = k a
with_value m (err e) k = stopped m e

abbrev pub present : {A : Type 0} → Option A → Result OpError A
present none = err panicked
present (some a) = ok a

-- What each operation's answer does to the walk.
unfoldable pub after_backup : Machine → ConnectionProfile → BackupRequest → Answer Text → Progress
after_backup m source request (err e) = stopped m (failed e)
after_backup m source request (ok artifact) = going (record m {
  outcome = record m.outcome { artifacts = m.outcome.artifacts ++ (artifact ∷ []) };
  state = record m.state {
    output_dir = some request.common.output_dir;
    backup = some request;
    source = some source;
    artifact = some artifact;
  };
  log = finished JobStepKind.backup ∷ m.log;
})

unfoldable pub after_restore : Machine → ConnectionProfile → Answer Text → Progress
after_restore m dest (err e) = stopped m (failed e)
after_restore m dest (ok target) = going (record m {
  outcome = record m.outcome { databases = m.outcome.databases ++ (target ∷ []) };
  state = record m.state { target = some target; dest = some dest };
  log = finished JobStepKind.restore ∷ m.log;
})

unfoldable pub after_mask : Machine → MaskingCoverage → Answer MaskingReport → Progress
after_mask m coverage (err e) = stopped m (failed e)
after_mask m coverage (ok report) = going (record m {
  state = record m.state { coverage = some coverage };
  outcome = record m.outcome { masking = some report };
  log = finished JobStepKind.mask ∷ m.log;
})

unfoldable pub after_verify : Machine → Answer VerificationReport → Progress
after_verify m (err e) = stopped m (failed e)
after_verify m (ok report) = going (record m {
  outcome = record m.outcome { verification = some report };
  log = finished JobStepKind.verify ∷ m.log;
})

unfoldable pub after_push : Machine → Answer (List PushResult) → Progress
after_push m (err e) = stopped m (failed e)
after_push m (ok results) = going (record m {
  outcome = record m.outcome { offsite = results };
  log = finished JobStepKind.offsite ∷ m.log;
})

unfoldable pub after_drill : Machine → Answer DrillOutcome → Progress
after_drill m (err e) = stopped m (failed e)
after_drill m (ok outcome) = going (record m {
  outcome = record m.outcome {
    verification = or_else m.outcome.verification (some outcome.report);
  };
  log = finished JobStepKind.drill ∷ m.log;
})

abbrev pub skip : Machine → JobStepKind → Text → Progress
skip m k reason = going (note m (skipped k reason))

-- `and_then(Option::as_ref)`.
abbrev pub flatten : {A : Type 0} → Option (Option A) → Option A
flatten none = none
flatten (some a) = a

-- A confirmation is taken for a destructive restore alone.
unfoldable pub take_confirmation : Bool → List Text → Option Text × List Text
take_confirmation false typed = (none, typed)
take_confirmation true [] = (none, [])
take_confirmation true (t ∷ typed) = (some t, typed)

module _ (ops : Operations) (request : PipelineRunRequest) where
  -- `steps.begin`, the call of `backup`, and what follows it.
  unfoldable pub call_backup : Machine → ConnectionProfile → BackupRequest → Progress
  unfolding after_backup
  call_backup m source req =
      let m1 = note m (began JobStepKind.backup) in
      let answer = ops.run_backup m1.log source req in
      after_backup (note m1 (backed_up source req answer)) source req answer

  unfoldable pub artifact_of : Machine → ArtifactSource → Result OpError Text
  artifact_of m previous_step = present m.state.artifact
  artifact_of m (file path) = ok path
  artifact_of m (newest_in_directory dir) = lift (ops.newest_artifact m.log dir)

  abbrev pub restore_request : RestoreStep → Text → Option Text → RestoreRequest
  restore_request r artifact typed = record {
    artifact_path = artifact;
    naming = r.naming;
    engine = r.engine;
    verify_checksum = r.verify_checksum;
    typed_confirmation = typed;
  }

  unfoldable pub call_restore : Machine → ConnectionProfile → RestoreStep → Text → Progress
  unfolding after_restore take_confirmation
  call_restore m dest r artifact =
      let (typed, left) = take_confirmation (is_destructive r.naming) m.confirmations in
      let req = restore_request r artifact typed in
      let m1 = record m { confirmations = left; log = began JobStepKind.restore ∷ m.log } in
      let answer = ops.run_restore m1.log dest req in
      after_restore (note m1 (restored dest req answer)) dest answer

  unfoldable pub call_mask : Machine → ConnectionProfile → Text → MaskingCoverage → Progress
  unfolding after_mask
  call_mask m dest target coverage =
      let m1 = note m (began JobStepKind.mask) in
      let answer = ops.mask_destination m1.log dest target coverage in
      after_mask (note m1 (masked dest target coverage answer)) coverage answer

  -- `let (Some(coverage), Some(target), Some(dest)) = … else`.
  unfoldable pub mask_step :
      Machine → Option MaskingCoverage → Option Text → Option ConnectionProfile → Progress
  unfolding call_mask
  mask_step m (some coverage) (some target) (some dest) = call_mask m dest target coverage
  mask_step m _ _ _ = skip m JobStepKind.mask (text "no rule matches a table this pipeline copies")

  abbrev pub masked_tables : Option MaskingCoverage → List Text
  masked_tables none = []
  masked_tables (some c) = tables c

  unfoldable pub verify_request :
      Machine → BackupRequest → ConnectionProfile → Text → ConnectionProfile → Bool → VerifyRequest
  unfolding tables_with_data
  verify_request m req source target dest deep = record {
    source_profile = source;
    dest_profile = dest;
    source_database = req.common.database;
    dest_database = target;
    tables_with_data = map (λ s. s.name) (tables_with_data req.common);
    schema_only = map (λ s. s.name) (filter (λ s. s.mode == schema_only) req.common.selections);
    deep = deep;
    masked_tables = masked_tables m.state.coverage;
  }

  unfoldable pub call_verify : Machine → VerifyRequest → Progress
  unfolding after_verify
  call_verify m req =
      let m1 = note m (began JobStepKind.verify) in
      let answer = ops.verify_restore m1.log req in
      after_verify (note m1 (verified req answer)) answer

  -- The `else` of the pattern is `unreachable!`.
  unfoldable pub verify_step :
      Machine
      → Option BackupRequest
      → Option ConnectionProfile
      → Option Text
      → Option ConnectionProfile
      → Bool
      → Progress
  unfolding call_verify verify_request
  verify_step m (some req) (some source) (some target) (some dest) deep =
      call_verify m (verify_request m req source target dest deep)
  verify_step m _ _ _ _ deep = stopped m panicked

  unfoldable pub call_push : Machine → Text → Progress
  unfolding after_push
  call_push m artifact =
      let m1 = note m (began JobStepKind.offsite) in
      let answer = ops.send_offsite m1.log artifact in
      after_push (note m1 (pushed artifact answer)) answer

  unfoldable pub call_retention : Machine → RetentionPolicy → Text → Progress
  call_retention m policy dir =
      let m1 = note m (began JobStepKind.retention) in
      let removed = ops.apply_retention m1.log dir policy in
      going (record m1 {
        outcome = record m1.outcome { removed_artifacts = m1.outcome.removed_artifacts ++ removed };
        log = finished JobStepKind.retention ∷ pruned dir policy removed ∷ m1.log;
      })

  unfoldable pub retention_step : Machine → RetentionPolicy → Text → Progress
  unfolding call_retention
  retention_step m policy dir =
      if not (none_or_passed m.outcome.verification)
      then skip m JobStepKind.retention (text "verification failed; every existing backup kept")
      else if not (all succeeded m.outcome.offsite)
      then skip m JobStepKind.retention
          (text "the off-site copy failed; every existing backup kept")
      else call_retention m policy dir

  abbrev pub drill_dir : Machine → Option Text → Text
  drill_dir m dir = elim (or_else dir m.state.output_dir) [
    | none ↦ request.default_output_dir
    | some d ↦ d
  ]

  abbrev pub drill_request : Machine → DrillStep → DrillRequest
  drill_request m d = record {
    artifact_dir = drill_dir m d.artifact_dir;
    deep_verify = d.deep;
    keep_on_failure = d.keep_on_failure;
  }

  unfoldable pub call_drill : Machine → ConnectionProfile → DrillRequest → Progress
  unfolding after_drill
  call_drill m dest req =
      let m1 = note m (began JobStepKind.drill) in
      let answer = ops.run_drill m1.log dest req in
      after_drill (note m1 (drilled dest req answer)) answer

  module _ (profiles : List ConnectionProfile) (resolved : List (ℕ × BackupRequest))
      (coverages : List (ℕ × Option MaskingCoverage)) where
    -- One round of the loop, at an index. A profile that is not found ends the run; what the source
    -- expects to be there, and is not, is a panic.
    unfoldable pub run_step : Machine → ℕ → PipelineStep → Progress
    unfolding call_backup artifact_of call_restore lookup mask_step verify_step call_push
        retention_step call_drill
    run_step m i (backup b) =
        with_value m (find_profile profiles b.profile_id)
          (λ source. with_value m (present (lookup i resolved)) (λ req. call_backup m source req))
    run_step m i (restore r) =
        with_value m (find_profile profiles r.profile_id) (λ dest.
          with_value m (artifact_of m r.source) (λ artifact. call_restore m dest r artifact))
    run_step m i (mask rules) =
        mask_step m (flatten (lookup i coverages)) m.state.target m.state.dest
    run_step m i (verify deep) =
        verify_step m m.state.backup m.state.source m.state.target m.state.dest deep
    run_step m i push_offsite =
        with_value m (present m.state.artifact) (λ artifact. call_push m artifact)
    run_step m i (retention policy) =
        with_value m (present m.state.output_dir) (λ dir. retention_step m policy dir)
    run_step m i (drill d) =
        with_value m (find_profile profiles d.profile_id)
          (λ dest. call_drill m dest (drill_request m d))

    unfoldable pub run_steps : Machine → ℕ → List PipelineStep → Progress
    unfolding run_step
    run_steps m i [] = going m
    run_steps m i (step ∷ steps) =
        if ops.is_cancelled m.log then stopped m cancelled else elim (run_step m i step) [
          | stopped m' e ↦ stopped m' e
          | going m' ↦ run_steps m' (suc i) steps
        ]

  abbrev pub at_start : Machine
  at_start = record {
    state = record {
      artifact = none;
      output_dir = none;
      backup = none;
      source = none;
      target = none;
      dest = none;
      coverage = none;
    };
    outcome = record {
      artifacts = [];
      databases = [];
      verification = none;
      masking = none;
      offsite = [];
      removed_artifacts = [];
    };
    confirmations = request.typed_confirmations;
    log = [];
  }

  abbrev pub check_against :
      Pipeline → List ConnectionProfile → Result OpError (List ConnectionProfile)
  check_against p profiles = elim (validate_against p profiles) [
    | none ↦ ok profiles
    | some e ↦ err (pipeline e)
  ]

  -- The whole of `run_pipeline`; `going` is `Ok`.
  unfoldable pub run_pipeline : Pipeline → Progress
  unfolding validate_against resolve_steps plan_masking run_steps
  run_pipeline p = with_value at_start (lift ops.list_profiles >>= check_against p) (λ profiles.
      with_value at_start (resolve_steps ops request profiles 0 p.steps) (λ resolved.
        with_value at_start (plan_masking ops request profiles p.steps resolved 0 p.steps)
          (λ coverages. run_steps profiles resolved coverages at_start 0 p.steps)))
