-- ===== src/Pipeline/Run/Gates.antt =====
-- What a run never does (engine/src/ops.rs, `run_pipeline`): it prunes nothing after a failed check,
-- and it gives each confirmation to the restore that it was typed for.
use mysql_ssh_db_sync.Prelude.{
  or_else, ℕ, zero, suc, ◌≡◌, refl, sym, ap, ◌∙◌, inl, inr, Bool, true, false, Option, none, some,
  List, [], ◌∷◌, Text, all, drop, text, get_elem?, if◌then◌else◌, ok, err, Bool-cases,
}
use mysql_ssh_db_sync.Types.{ConnectionProfile}
use mysql_ssh_db_sync.Backup.{BackupRequest}
use mysql_ssh_db_sync.Restore.{RestoreRequest, is_destructive}
use mysql_ssh_db_sync.Retention.{RetentionPolicy}
use mysql_ssh_db_sync.Mask.{MaskingCoverage, MaskingReport}
use mysql_ssh_db_sync.Verify.{VerificationReport}
use mysql_ssh_db_sync.Step.{JobStepKind}
use mysql_ssh_db_sync.Pipeline.{
  PipelineStep, RestoreStep, backup, restore, verify, mask, push_offsite, retention, drill,
  Pipeline,
}
use mysql_ssh_db_sync.Pipeline.Run.{
  PipelineRunRequest, PushResult, succeeded, VerifyRequest, DrillRequest, DrillOutcome, Answer,
  began, skipped, backed_up, restored, masked, verified, pushed, drilled, Operations,
  none_or_passed, Machine, note, Progress, going, stopped,
}
use mysql_ssh_db_sync.Pipeline.Run.Prepare.{lookup, find_profile}
use mysql_ssh_db_sync.Pipeline.Run.Walk.{
  after_backup, after_restore, after_mask, after_verify, after_push, after_drill, take_confirmation,
  call_backup, artifact_of, call_restore, call_mask, mask_step, call_verify, verify_step, call_push,
  call_retention, retention_step, call_drill, flatten, present, run_step, run_steps, run_pipeline,
  at_start,
}
use mysql_ssh_db_sync.Pipeline.Run.Journal.{
  last_report, last_push, last_artifact, last_output_dir, destructive_calls, Sanctioned, EachAfter,
  log_of, Ends, Ends-map, with_value-Ends, run_steps-Ends,
}
use mysql_ssh_db_sync.Pipeline.Run.Preparation.{run_pipeline-Ends}

take_next :
    (n : ℕ) (typed : List Text)
    → take_confirmation true (drop n typed) ≡ (get_elem? typed n, drop (suc n) typed)
unfolding take_confirmation
take_next zero [] = refl
take_next zero (t ∷ typed) = refl
take_next (suc n) [] = refl
take_next (suc n) (t ∷ typed) = take_next n typed

module _ (typed : List Text) where
  -- The machine holds what the log says, and each call was sanctioned by those before it.
  abbrev Mirrors : Machine → Type 0
  Mirrors m =
      (m.outcome.verification ≡ last_report m.log)
      × (m.outcome.offsite ≡ last_push m.log)
      × (m.state.artifact ≡ last_artifact m.log)
      × (m.state.output_dir ≡ last_output_dir m.log)
      × (m.confirmations ≡ drop (destructive_calls m.log) typed)
      × EachAfter (Sanctioned typed) m.log

  abbrev Stays : Progress → Type 0
  Stays p = Ends Mirrors (λ m e. Mirrors m) p

  backup-Stays :
      (m : Machine) (source : ConnectionProfile) (req : BackupRequest) (answer : Answer Text)
      → Mirrors m
      → Stays (after_backup (note m (backed_up source req answer)) source req answer)
  unfolding after_backup
  backup-Stays m source req (err e) (v, o, a, d, c, s) = (v, o, a, d, c, (tt, s))
  backup-Stays m source req (ok artifact) (v, o, a, d, c, s) = (v, o, refl, refl, c, (tt, (tt, s)))

  mask-Stays :
      (m : Machine) (dest : ConnectionProfile) (target : Text) (coverage : MaskingCoverage)
      (answer : Answer MaskingReport)
      → Mirrors m
      → Stays (after_mask (note m (masked dest target coverage answer)) coverage answer)
  unfolding after_mask
  mask-Stays m dest target coverage (err e) (v, o, a, d, c, s) = (v, o, a, d, c, (tt, s))
  mask-Stays m dest target coverage (ok report) (v, o, a, d, c, s) = (v, o, a, d, c, (tt, (tt, s)))

  verify-Stays :
      (m : Machine) (req : VerifyRequest) (answer : Answer VerificationReport)
      → Mirrors m
      → Stays (after_verify (note m (verified req answer)) answer)
  unfolding after_verify
  verify-Stays m req (err e) (v, o, a, d, c, s) = (v, o, a, d, c, (tt, s))
  verify-Stays m req (ok report) (v, o, a, d, c, s) = (refl, o, a, d, c, (tt, (tt, s)))

  push-Stays :
      (m : Machine) (artifact : Text) (answer : Answer (List PushResult))
      → last_artifact m.log ≡ some artifact
      → Mirrors m
      → Stays (after_push (note m (pushed artifact answer)) answer)
  unfolding after_push
  push-Stays m artifact (err e) k (v, o, a, d, c, s) = (v, o, a, d, c, (k, s))
  push-Stays m artifact (ok results) k (v, o, a, d, c, s) = (v, refl, a, d, c, (tt, (k, s)))

  drill-Stays :
      (m : Machine) (dest : ConnectionProfile) (req : DrillRequest) (answer : Answer DrillOutcome)
      → Mirrors m
      → Stays (after_drill (note m (drilled dest req answer)) answer)
  unfolding after_drill
  drill-Stays m dest req (err e) (v, o, a, d, c, s) = (v, o, a, d, c, (tt, s))
  drill-Stays m dest req (ok outcome) (v, o, a, d, c, s) =
      (ap (λ r. or_else r (some outcome.report)) v, o, a, d, c, (tt, (tt, s)))

  restore-Stays :
      (m : Machine) (dest : ConnectionProfile) (req : RestoreRequest) (answer : Answer Text)
      (left : List Text)
      → take_confirmation (is_destructive req.naming) m.confirmations
        ≡ (req.typed_confirmation, left)
      → Mirrors m
      → Stays (
          after_restore
            (record m { confirmations = left; log = restored dest req answer ∷ m.log })
            dest
            answer)
  unfolding after_restore take_confirmation
  restore-Stays m dest req answer left k (v, o, a, d, c, s) = ends answer
    where
      next :
          take_confirmation (is_destructive req.naming) (drop (destructive_calls m.log) typed)
          ≡ (req.typed_confirmation, left)
      next = rw c at k

      given :
          (b : Bool)
          → take_confirmation b (drop (destructive_calls m.log) typed)
            ≡ (req.typed_confirmation, left)
          → (req.typed_confirmation
              ≡ (if b then get_elem? typed (destructive_calls m.log) else none))
            × (left
                ≡ drop (if b then suc (destructive_calls m.log) else destructive_calls m.log) typed)
      given true h =
          let pair = sym (take_next (destructive_calls m.log) typed) ∙ h in
          (sym (ap (λ x. x.0) pair), sym (ap (λ x. x.1) pair))
      given false h = (sym (ap (λ x. x.0) h), sym (ap (λ x. x.1) h))

      ends :
          (r : Answer Text)
          → Stays (
              after_restore
                (record m { confirmations = left; log = restored dest req r ∷ m.log })
                dest
                r)
      ends (err e) = let (t, l) = given (is_destructive req.naming) next in (v, o, a, d, l, (t, s))
      ends (ok target) =
          let (t, l) = given (is_destructive req.naming) next in (v, o, a, d, l, (tt, (t, s)))

  module _ (ops : Operations) (request : PipelineRunRequest) where
    began-Mirrors : (m : Machine) (k : JobStepKind) → Mirrors m → Mirrors (note m (began k))
    began-Mirrors m k (v, o, a, d, c, s) = (v, o, a, d, c, (tt, s))

    skipped-Mirrors :
        (m : Machine) (k : JobStepKind) (reason : Text)
        → Mirrors m
        → Mirrors (note m (skipped k reason))
    skipped-Mirrors m k reason (v, o, a, d, c, s) = (v, o, a, d, c, (tt, s))

    abbrev no_rule : Text
    no_rule = text "no rule matches a table this pipeline copies"

    mask_step-Stays :
        (m : Machine) (coverage : Option MaskingCoverage) (target : Option Text)
        (dest : Option ConnectionProfile)
        → Mirrors m
        → Stays (mask_step ops request m coverage target dest)
    unfolding mask_step call_mask
    mask_step-Stays m (some coverage) (some target) (some dest) h =
        mask-Stays (note m (began JobStepKind.mask)) dest target coverage _
          (began-Mirrors m JobStepKind.mask h)
    mask_step-Stays m (some coverage) (some target) none h =
        skipped-Mirrors m JobStepKind.mask no_rule h
    mask_step-Stays m (some coverage) none dest h = skipped-Mirrors m JobStepKind.mask no_rule h
    mask_step-Stays m none target dest h = skipped-Mirrors m JobStepKind.mask no_rule h

    verify_step-Stays :
        (m : Machine) (req : Option BackupRequest) (source : Option ConnectionProfile)
        (target : Option Text) (dest : Option ConnectionProfile) (deep : Bool)
        → Mirrors m
        → Stays (verify_step ops request m req source target dest deep)
    unfolding verify_step call_verify
    verify_step-Stays m (some req) (some source) (some target) (some dest) deep h =
        verify-Stays (note m (began JobStepKind.verify)) _ _ (began-Mirrors m JobStepKind.verify h)
    verify_step-Stays m (some req) (some source) (some target) none deep h = h
    verify_step-Stays m (some req) (some source) none dest deep h = h
    verify_step-Stays m (some req) none target dest deep h = h
    verify_step-Stays m none source target dest deep h = h

    retention_step-Stays :
        (m : Machine) (policy : RetentionPolicy) (dir : Text)
        → m.state.output_dir ≡ some dir
        → Mirrors m
        → Stays (retention_step ops request m policy dir)
    unfolding retention_step call_retention
    retention_step-Stays m policy dir e (v, o, a, d, c, s) =
        elim (Bool-cases (none_or_passed m.outcome.verification)) [
          | inr bad ↦ rw bad (v, o, a, d, c, (tt, s))
          | inl fine ↦ elim (Bool-cases (all succeeded m.outcome.offsite)) [
            | inr bad ↦ rw (fine, bad) (v, o, a, d, c, (tt, s))
            | inl copied ↦
                let passed = ap none_or_passed (sym v) ∙ fine in
                let sent = ap (all succeeded) (sym o) ∙ copied in
                rw (fine, copied) (v, o, a, d, c, (tt, ((passed, sent, sym d ∙ e), (tt, s))))
          ]
        ]

    restore_step-Stays :
        (m : Machine) (dest : ConnectionProfile) (r : RestoreStep) (artifact : Text)
        → Mirrors m
        → Stays (call_restore ops request m dest r artifact)
    unfolding call_restore
    restore_step-Stays m dest r artifact h =
        restore-Stays (note m (began JobStepKind.restore)) dest _ _ _ refl
          (began-Mirrors m JobStepKind.restore h)

    present-some : {A : Type 0} {o : Option A} (a : A) → present o ≡ ok a → o ≡ some a
    present-some {o = none} a h = cc
    present-some {o = some b} a h = cc

    module _ (profiles : List ConnectionProfile) (resolved : List (ℕ × BackupRequest))
        (coverages : List (ℕ × Option MaskingCoverage)) where
      run_step-Stays :
          (m : Machine) (i : ℕ) (step : PipelineStep)
          → Mirrors m
          → Stays (run_step ops request profiles resolved coverages m i step)
      unfolding run_step call_backup call_push call_drill
      run_step-Stays m i (backup b) h =
          with_value-Ends Mirrors (λ m' e. Mirrors m') m (find_profile profiles b.profile_id) _
            (λ e k. h)
            (λ source k.
              with_value-Ends Mirrors (λ m' e. Mirrors m') m (present (lookup i resolved)) _
                (λ e k'. h)
                (λ req k'.
                  backup-Stays (note m (began JobStepKind.backup)) source req _
                    (began-Mirrors m JobStepKind.backup h)))
      run_step-Stays m i (restore r) h =
          with_value-Ends Mirrors (λ m' e. Mirrors m') m (find_profile profiles r.profile_id) _
            (λ e k. h)
            (λ dest k.
              with_value-Ends Mirrors (λ m' e. Mirrors m') m (artifact_of ops request m r.source) _
                (λ e k'. h) (λ artifact k'. restore_step-Stays m dest r artifact h))
      run_step-Stays m i (mask rules) h =
          mask_step-Stays m (flatten (lookup i coverages)) m.state.target m.state.dest h
      run_step-Stays m i (verify deep) h =
          verify_step-Stays m m.state.backup m.state.source m.state.target m.state.dest deep h
      run_step-Stays m i push_offsite h =
          with_value-Ends Mirrors (λ m' e. Mirrors m') m (present m.state.artifact) _ (λ e k. h)
            (λ artifact k.
              push-Stays (note m (began JobStepKind.offsite)) artifact _
                (sym h.2 ∙ present-some artifact k) (began-Mirrors m JobStepKind.offsite h))
      run_step-Stays m i (retention policy) h =
          with_value-Ends Mirrors (λ m' e. Mirrors m') m (present m.state.output_dir) _ (λ e k. h)
            (λ dir k. retention_step-Stays m policy dir (present-some dir k) h)
      run_step-Stays m i (drill d) h =
          with_value-Ends Mirrors (λ m' e. Mirrors m') m (find_profile profiles d.profile_id) _
            (λ e k. h)
            (λ dest k.
              drill-Stays (note m (began JobStepKind.drill)) dest _ _
                (began-Mirrors m JobStepKind.drill h))

      run_steps-Stays :
          (m : Machine) (i : ℕ) (steps : List PipelineStep)
          → Mirrors m
          → Stays (run_steps ops request profiles resolved coverages m i steps)
      run_steps-Stays m i steps h =
          Ends-map (λ m'. (n : ℕ) × Mirrors m') Mirrors (λ m' e. Mirrors m') (λ m' e. e.1)
            (run_steps ops request profiles resolved coverages m i steps)
            (run_steps-Ends ops request profiles resolved coverages (λ j rest. Mirrors)
              (λ m' e. Mirrors m') (λ m' j step rest k. (k, run_step-Stays m' j step k)) m i steps
              h)

  Stays-log : (p : Progress) → Stays p → EachAfter (Sanctioned typed) (log_of p)
  Stays-log (going m) (v, o, a, d, c, s) = s
  Stays-log (stopped m e) (v, o, a, d, c, s) = s

-- In any run, failed or not, each call is sanctioned by the calls before it: old artifacts are pruned,
-- in the directory of the newest backup, only if the report that stands passes and the last off-site
-- copy succeeded, where there were such; what is copied off-site is the artifact of the newest
-- backup; and the restore that is the n-th to drop a database gets the n-th confirmation, and any
-- other restore gets none.
pub run_pipeline-Sanctioned :
    (ops : Operations) (request : PipelineRunRequest) (p : Pipeline)
    → EachAfter (Sanctioned request.typed_confirmations) (log_of (run_pipeline ops request p))
run_pipeline-Sanctioned ops request p =
    Stays-log request.typed_confirmations (run_pipeline ops request p) (
      run_pipeline-Ends ops request p (Mirrors request.typed_confirmations)
        (λ m e. Mirrors request.typed_confirmations m) (λ e k. start)
        (λ profiles resolved coverages valid found.
          run_steps-Stays request.typed_confirmations ops request profiles resolved coverages
            (at_start ops request) 0 p.steps start))
  where
    start : Mirrors request.typed_confirmations (at_start ops request)
    start = (refl, refl, refl, refl, refl, tt)
