-- ===== src/Schedule.antt =====
-- engine/src/schedule.rs: what runs unattended, when it is due, and the check of it.
--
-- The parser of URLs and the time zones are parameters. An instant is a number, and so is an id.
pub mod Checks
pub mod Due
mod Examples
use mysql_ssh_db_sync.Prelude.{
  ℕ, ◌+◌, Bool, true, false, not, ◌&&◌, ◌||◌, Option, none, some, List, Text, text, join,
  if◌then◌else◌, is_some, is_none, is_blank, ltb, leb, ◌==◌, PartialEq, ◌≡◌, nat_eq, list_eq,
  Result, ok, err, arith,
}
use mysql_ssh_db_sync.Types.{Engine, engine_eq}
use mysql_ssh_db_sync.Backup.{EngineBackupOptions, BackupRequest}
use mysql_ssh_db_sync.Backup
use mysql_ssh_db_sync.Restore.{TargetNaming, EngineRestoreOptions, is_destructive}
use mysql_ssh_db_sync.Restore
use mysql_ssh_db_sync.Retention.{RetentionPolicy}
use mysql_ssh_db_sync.Mask.{MaskRule}
use mysql_ssh_db_sync.Plan.{SyncPlan}
use mysql_ssh_db_sync.Cron.{Clock, CronExpression, prev_at_or_before_in, next_after_in}
use mysql_ssh_db_sync.Pipeline.{Pipeline, targets_of, is_armed}
use mysql_ssh_db_sync.Pipeline

-- engine/src/job.rs.
pub data JobOutcome : Type 0 where
  success failed cancelled : JobOutcome

-- engine/src/cron.rs.
pub data ScheduleTimezone : Type 0 where
  local_time utc : ScheduleTimezone

pub data NotifyPolicy : Type 0 where
  never on_failure always : NotifyPolicy

unfoldable pub wants : NotifyPolicy → JobOutcome → Bool
wants never outcome = false
wants always outcome = true
wants on_failure success = false
wants on_failure _ = true

pub data ScheduleKind : Type 0 where
  sync drill pipeline : ScheduleKind

pub record ScheduleRestore : Type 0 where
  pub naming : TargetNaming
  pub options : EngineRestoreOptions

pub record ScheduleAction : Type 0 where
  pub output_dir : Text
  pub compress : Bool
  pub encrypt : Bool
  pub backup : EngineBackupOptions
  pub restore : Option ScheduleRestore
  pub verify : Bool
  pub deep_verify : Bool
  pub retention : Option RetentionPolicy
  pub record_row_counts : Bool
  pub keep_on_failure : Bool

pub data ScheduleError : Type 0 where
  name_required restore_mismatch plan_required : ScheduleError
  destructive_target : TargetNaming → ScheduleError
  drill_takes_no_plan drill_needs_profile drill_takes_no_target : ScheduleError
  engine_mismatch : Engine → Engine → ScheduleError
  pipeline_required pipeline_takes_nothing_else : ScheduleError
  pipeline_not_armed : Text → Text → ScheduleError
  bad_webhook : Text → Text → ScheduleError

pub record Schedule : Type 0 where
  pub id : ℕ
  pub name : Text
  pub kind : ScheduleKind
  pub plan_id : Option ℕ
  pub dest_profile_id : Option ℕ
  pub pipeline_id : Option ℕ
  pub cron : CronExpression
  pub timezone : ScheduleTimezone
  pub enabled : Bool
  pub action : ScheduleAction
  pub webhook_url : Option Text
  pub notify : NotifyPolicy
  pub catch_up : Bool
  pub last_run_at : Option ℕ
  pub last_outcome : Option JobOutcome
  pub last_job_id : Option ℕ
  pub created_at : ℕ
  pub updated_at : ℕ

infixr 5 ◌then_check◌
abbrev pub ◌then_check◌ : Option ScheduleError → Option ScheduleError → Option ScheduleError
none then_check rest = rest
some e then_check rest = some e

-- What `Url::parse` says: an error, or the scheme and the host.
abbrev pub ParseUrl : Type 0
ParseUrl = Text → Result Text (Text × Option Text)

unfoldable pub validate_webhook : ParseUrl → Text → Option ScheduleError
validate_webhook parse raw = elim (parse raw) [
  | err e ↦ some (bad_webhook raw e)
  | ok url ↦
      let (scheme, host) = url in
      if not (scheme == text "http" || scheme == text "https")
      then some (bad_webhook raw (text "the scheme must be http or https"))
      else if is_none host
      then some (bad_webhook raw (text "there is no host in the URL"))
      else none
]

unfoldable pub check_webhook : ParseUrl → Option Text → Option ScheduleError
unfolding validate_webhook
check_webhook parse none = none
check_webhook parse (some url) = validate_webhook parse url

unfoldable pub check_restore : ScheduleAction → Option ScheduleError
check_restore action = elim action.restore [
  | none ↦ none
  | some r ↦
      if is_destructive r.naming
      then some (destructive_target r.naming)
      else if not (Restore.engine_of r.options == Backup.engine_of action.backup)
      then some (engine_mismatch (Backup.engine_of action.backup) (Restore.engine_of r.options))
      else none
]

-- What is left of `validate_parts` for each kind.
unfoldable pub check_kind :
    ScheduleKind → Option ℕ → Option ℕ → Option ℕ → ScheduleAction → Option ScheduleError
unfolding check_restore
check_kind pipeline plan dest chain action =
    if is_none chain
    then some pipeline_required
    else if is_some plan || is_some dest || is_some action.restore
    then some pipeline_takes_nothing_else
    else none
check_kind drill plan dest chain action =
    if is_some chain
    then some pipeline_takes_nothing_else
    else if is_some plan
    then some drill_takes_no_plan
    else if is_none dest
    then some drill_needs_profile
    else if is_some action.restore
    then some drill_takes_no_target
    else none
check_kind sync plan dest chain action =
    let rest = check_restore action in
    if is_some chain
    then some pipeline_takes_nothing_else
    else if is_none plan
    then some plan_required
    else if is_some dest && is_none action.restore || is_none dest && is_some action.restore
    then some restore_mismatch
    else rest

-- `validate_parts`; `none` is `Ok(())`.
unfoldable pub validate : ParseUrl → Schedule → Option ScheduleError
unfolding check_webhook check_kind
validate parse s =
    (if is_blank s.name then some name_required else none)
    then_check check_webhook parse s.webhook_url
    then_check check_kind s.kind s.plan_id s.dest_profile_id s.pipeline_id s.action

unfoldable pub validate_pipeline_target : Pipeline → Option ScheduleError
unfolding is_armed targets_of join
validate_pipeline_target p =
    if not (Pipeline.is_destructive p) || is_armed p
    then none
    else some (pipeline_not_armed p.name (join (text ", ") (targets_of p.steps)))

abbrev pub baseline : Schedule → ℕ
baseline s = elim s.last_run_at [ none ↦ s.created_at | some at ↦ at ]

module _ (zones : ScheduleTimezone → Clock) where
  -- `now - occurrence > grace`, as a difference of instants that may be negative.
  unfoldable pub due_at : Schedule → ℕ → ℕ → Option ℕ
  unfolding prev_at_or_before_in
  due_at s now grace =
      if not s.enabled then none else elim (prev_at_or_before_in (zones s.timezone) s.cron now) [
        | none ↦ none
        | some occurrence ↦
            if leb occurrence (baseline s)
            then none
            else if not s.catch_up && ltb (occurrence + grace) now
            then none
            else some occurrence
      ]

-- engine/src/ops.rs.
pub record SyncRequest : Type 0 where
  pub backup : BackupRequest
  pub naming : TargetNaming
  pub restore : EngineRestoreOptions
  pub verify : Bool
  pub deep_verify : Bool
  pub masking : List MaskRule
  pub retention : Option RetentionPolicy
  pub typed_confirmation : Option Text

unfoldable pub backup_request : Schedule → SyncPlan → BackupRequest
backup_request s plan = record {
  common = record {
    database = plan.database;
    selections = plan.selections;
    output_dir = s.action.output_dir;
    compress = s.action.compress;
    encrypt = s.action.encrypt;
    record_row_counts = s.action.record_row_counts;
  };
  engine = s.action.backup;
}

unfoldable pub sync_request : Schedule → SyncPlan → Option SyncRequest
unfolding backup_request
sync_request s plan = elim s.action.restore [
  | none ↦ none
  | some r ↦ some (record {
    backup = backup_request s plan;
    naming = r.naming;
    restore = r.options;
    verify = s.action.verify;
    deep_verify = s.action.deep_verify;
    masking = plan.masking;
    retention = s.action.retention;
    typed_confirmation = none;
  })
]
