-- ===== src/Pipeline/Run.antt =====
-- A run of a chain (engine/src/ops.rs, `run_pipeline`): its state, and what it reports and does.
--
-- The operations that a step calls (`backup`, `restore`, `drill` and so on, which talk to servers) are
-- a record of answers. An answer may depend on everything that the run did before, which is the log
-- of its calls, newest first; so nothing is assumed about the servers. The log also holds what the
-- run tells the recorder of steps (engine/src/step.rs), less the details of a finished step.
pub mod Prepare
pub mod Walk
pub mod Journal
pub mod Gates
pub mod Transitions
pub mod Preparation
pub mod Panics
pub mod Completion
pub mod Unattended
mod Examples
use mysql_ssh_db_sync.Prelude.{
  ℕ, Bool, true, ◌&&◌, Option, none, some, List, [], ◌∷◌, Text, Result, ok, err, all, is_none,
}
use mysql_ssh_db_sync.Types.{ConnectionProfile}
use mysql_ssh_db_sync.Backup.{TableSelection, BackupRequest}
use mysql_ssh_db_sync.Restore.{RestoreRequest}
use mysql_ssh_db_sync.Retention.{RetentionPolicy}
use mysql_ssh_db_sync.Mask.{MaskRule, MaskingCoverage, MaskingReport}
use mysql_ssh_db_sync.Verify.{VerificationReport, passed}
use mysql_ssh_db_sync.Plan.{SyncPlan}
use mysql_ssh_db_sync.Step.{JobStepKind}
use mysql_ssh_db_sync.Pipeline.{
  PipelineError, PipelineStep, backup, restore, verify, mask, push_offsite, retention, drill,
}

abbrev pub kind : PipelineStep → JobStepKind
kind (backup b) = JobStepKind.backup
kind (restore r) = JobStepKind.restore
kind (verify deep) = JobStepKind.verify
kind (mask rules) = JobStepKind.mask
kind push_offsite = JobStepKind.offsite
kind (retention policy) = JobStepKind.retention
kind (drill d) = JobStepKind.drill

pub record PipelineRunRequest : Type 0 where
  pub typed_confirmations : List Text
  pub default_output_dir : Text

pub record PushResult : Type 0 where
  pub destination_id : ℕ
  pub destination_name : Text
  pub location : Text
  pub key : Text
  pub url : Text
  pub bytes : ℕ
  pub error : Option Text
  pub removed : List Text

abbrev pub succeeded : PushResult → Bool
succeeded r = is_none r.error

pub record VerifyRequest : Type 0 where
  pub source_profile : ConnectionProfile
  pub dest_profile : ConnectionProfile
  pub source_database : Text
  pub dest_database : Text
  pub tables_with_data : List Text
  pub schema_only : List Text
  pub deep : Bool
  pub masked_tables : List Text

-- The restore options of a drill are the defaults of the connection's engine and left out.
pub record DrillRequest : Type 0 where
  pub artifact_dir : Text
  pub deep_verify : Bool
  pub keep_on_failure : Bool

pub record DrillOutcome : Type 0 where
  pub artifact : Text
  pub scratch_database : Text
  pub dropped : Bool
  pub report : VerificationReport

-- An operation's own error is a number.
pub data OpError : Type 0 where
  pipeline : PipelineError → OpError
  profile_not_found sync_plan_not_found : ℕ → OpError
  cancelled : OpError
  failed : ℕ → OpError
  panicked : OpError

abbrev pub Answer : Type 0 → Type 0
Answer A = Result ℕ A

pub data Event : Type 0 where
  began finished : JobStepKind → Event
  skipped : JobStepKind → Text → Event
  backed_up : ConnectionProfile → BackupRequest → Answer Text → Event
  restored : ConnectionProfile → RestoreRequest → Answer Text → Event
  masked : ConnectionProfile → Text → MaskingCoverage → Answer MaskingReport → Event
  verified : VerifyRequest → Answer VerificationReport → Event
  pushed : Text → Answer (List PushResult) → Event
  pruned : Text → RetentionPolicy → List Text → Event
  drilled : ConnectionProfile → DrillRequest → Answer DrillOutcome → Event

-- What the operations answer. Those of the preparation take the number of the step.
pub record Operations : Type 0 where
  pub list_profiles : Answer (List ConnectionProfile)
  pub get_sync_plan : ℕ → ℕ → Answer (Option SyncPlan)
  pub resolve_selections :
      ℕ → ConnectionProfile → Text → List TableSelection → Answer (List TableSelection)
  pub plan_masking_for :
      ℕ
      → ConnectionProfile
      → Text
      → List MaskRule
      → List TableSelection
      → Answer (Option MaskingCoverage)
  pub is_cancelled : List Event → Bool
  pub newest_artifact : List Event → Text → Answer Text
  pub run_backup : List Event → ConnectionProfile → BackupRequest → Answer Text
  pub run_restore : List Event → ConnectionProfile → RestoreRequest → Answer Text
  pub mask_destination :
      List Event → ConnectionProfile → Text → MaskingCoverage → Answer MaskingReport
  pub verify_restore : List Event → VerifyRequest → Answer VerificationReport
  pub send_offsite : List Event → Text → Answer (List PushResult)
  pub apply_retention : List Event → Text → RetentionPolicy → List Text
  pub run_drill : List Event → ConnectionProfile → DrillRequest → Answer DrillOutcome

pub record PipelineOutcome : Type 0 where
  pub artifacts : List Text
  pub databases : List Text
  pub verification : Option VerificationReport
  pub masking : Option MaskingReport
  pub offsite : List PushResult
  pub removed_artifacts : List Text

abbrev pub none_or_passed : Option VerificationReport → Bool
none_or_passed none = true
none_or_passed (some r) = passed r

unfoldable pub fully_succeeded : PipelineOutcome → Bool
fully_succeeded o = none_or_passed o.verification && all succeeded o.offsite

pub record RunState : Type 0 where
  pub artifact : Option Text
  pub output_dir : Option Text
  pub backup : Option BackupRequest
  pub source : Option ConnectionProfile
  pub target : Option Text
  pub dest : Option ConnectionProfile
  pub coverage : Option MaskingCoverage

-- The variables of the walk, and the log.
pub record Machine : Type 0 where
  pub state : RunState
  pub outcome : PipelineOutcome
  pub confirmations : List Text
  pub log : List Event

abbrev pub note : Machine → Event → Machine
note m e = record m { log = e ∷ m.log }

-- Either the walk goes on, or it has returned an error, or panicked.
pub data Progress : Type 0 where
  going : Machine → Progress
  stopped : Machine → OpError → Progress
