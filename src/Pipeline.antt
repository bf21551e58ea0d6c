-- ===== src/Pipeline.antt =====
-- engine/src/pipeline.rs: a saved chain of actions, its structural checks, and the permission to run
-- it with nobody present. The store's part of that permission is engine/src/store.rs.
pub mod Spec
pub mod Steps
pub mod Arming
pub mod Connections
pub mod Engines
pub mod Run
mod Examples
use mysql_ssh_db_sync.Prelude.{
  ℕ, suc, Bool, true, false, not, ◌&&◌, ◌||◌, Option, none, some, List, [], ◌∷◌, Text, text,
  if◌then◌else◌, is_some, is_none, is_empty, is_blank, any, find, contains, join, trim, ◌==◌,
  nat_eq, list_eq, Result, ok, err, unless, lines,
}
use mysql_ssh_db_sync.Types.{Engine, ConnectionProfile, engine_eq}
use mysql_ssh_db_sync.Backup.{TableSelection, EngineBackupOptions}
use mysql_ssh_db_sync.Restore.{
  TargetNaming, drop_and_recreate, into_existing, new_timestamped, EngineRestoreOptions,
}
use mysql_ssh_db_sync.Restore
use mysql_ssh_db_sync.Mask.{MaskRule}
use mysql_ssh_db_sync.Retention.{RetentionPolicy, is_enabled}

pub data ArtifactSource : Type 0 where
  previous_step : ArtifactSource
  newest_in_directory : Text → ArtifactSource
  file : Text → ArtifactSource

pub record BackupStep : Type 0 where
  pub profile_id : ℕ
  pub database : Text
  pub plan_id : Option ℕ
  pub selections : List TableSelection
  pub output_dir : Option Text
  pub compress : Bool
  pub encrypt : Bool
  pub record_row_counts : Bool
  pub engine : EngineBackupOptions

pub record RestoreStep : Type 0 where
  pub profile_id : ℕ
  pub source : ArtifactSource
  pub naming : TargetNaming
  pub engine : EngineRestoreOptions
  pub verify_checksum : Bool

pub record DrillStep : Type 0 where
  pub profile_id : ℕ
  pub artifact_dir : Option Text
  pub deep : Bool
  pub keep_on_failure : Bool

pub data PipelineStep : Type 0 where
  backup : BackupStep → PipelineStep
  restore : RestoreStep → PipelineStep
  verify : Bool → PipelineStep
  mask : List MaskRule → PipelineStep
  push_offsite : PipelineStep
  retention : RetentionPolicy → PipelineStep
  drill : DrillStep → PipelineStep

abbrev pub is_destructive_step : PipelineStep → Bool
is_destructive_step (restore r) = Restore.is_destructive r.naming
is_destructive_step _ = false

abbrev pub profile_id : PipelineStep → Option ℕ
profile_id (backup b) = some b.profile_id
profile_id (restore r) = some r.profile_id
profile_id (drill d) = some d.profile_id
profile_id _ = none

pub record Pipeline : Type 0 where
  pub id : ℕ
  pub name : Text
  pub steps : List PipelineStep
  pub unattended_ack : Option Text
  pub created_at : ℕ
  pub updated_at : ℕ

-- The names that steps drop, in step order.
unfoldable pub dropped_by : TargetNaming → List Text → List Text
dropped_by (drop_and_recreate name) rest = name ∷ rest
dropped_by _ rest = rest

unfoldable pub targets_of : List PipelineStep → List Text
unfolding dropped_by
targets_of [] = []
targets_of (restore r ∷ steps) = dropped_by r.naming (targets_of steps)
targets_of (_ ∷ steps) = targets_of steps

unfoldable pub is_destructive : Pipeline → Bool
is_destructive p = any is_destructive_step p.steps

unfoldable pub destructive_signature : List PipelineStep → Option Text
unfolding targets_of join
destructive_signature steps =
    let targets = targets_of steps in
    if is_empty targets then none else some (join (text "\n") targets)

-- `match (&self.unattended_ack, self.destructive_signature())`.
abbrev pub agrees : Option Text → Option Text → Bool
agrees (some ack) (some current) = ack == current
agrees _ _ = false

unfoldable pub is_armed : Pipeline → Bool
unfolding destructive_signature
is_armed p = agrees p.unattended_ack (destructive_signature p.steps)

pub data PipelineError : Type 0 where
  no_name empty : PipelineError
  no_database nothing_to_restore : ℕ → PipelineError
  nothing_to_compare_against no_rules empty_retention : ℕ → PipelineError
  nothing_restored_yet no_artifact_yet : ℕ → Text → PipelineError
  masking_into_existing : ℕ → Text → PipelineError
  repeated_destructive_target : Text → PipelineError
  unknown_profile : ℕ → PipelineError
  nothing_to_authorise : PipelineError
  table_set_moved_on : ℕ → Text → Text → Text → PipelineError
  confirmation_does_not_match : Text → Text → PipelineError
  engine_mismatch : ℕ → ℕ → Engine → Engine → PipelineError

abbrev pub is_previous : ArtifactSource → Bool
is_previous previous_step = true
is_previous _ = false

-- What the first loop has seen: a backup, a restore.
pub record Seen : Type 0 where
  pub backup : Bool
  pub restore : Bool

-- One round of the first loop, at a 1-based step number: the error, if there is one.
unfoldable pub check_step : Seen → ℕ → PipelineStep → Option PipelineError
check_step seen n (backup b) = if is_blank b.database then some (no_database n) else none
check_step seen n (restore r) =
    if is_previous r.source && not seen.backup then some (nothing_to_restore n) else none
check_step seen n (verify deep) =
    if not seen.restore
    then some (nothing_restored_yet n (text "verify"))
    else if not seen.backup
    then some (nothing_to_compare_against n)
    else none
check_step seen n (mask rules) =
    if not seen.restore
    then some (nothing_restored_yet n (text "mask"))
    else if is_empty rules
    then some (no_rules n)
    else none
check_step seen n push_offsite =
    if not seen.backup then some (no_artifact_yet n (text "copy off-site")) else none
check_step seen n (retention policy) =
    if not seen.backup
    then some (no_artifact_yet n (text "apply retention"))
    else if not (is_enabled policy)
    then some (empty_retention n)
    else none
check_step seen n (drill d) = none

abbrev pub see : Seen → PipelineStep → Seen
see seen (backup b) = record seen { backup = true }
see seen (restore r) = record seen { restore = true }
see seen _ = seen

infixr 5 ◌then_check◌
abbrev pub ◌then_check◌ : Option PipelineError → Option PipelineError → Option PipelineError
none then_check rest = rest
some e then_check rest = some e

-- The first loop, from a step number on.
unfoldable pub check_order : Seen → ℕ → List PipelineStep → Option PipelineError
unfolding check_step
check_order seen n [] = none
check_order seen n (step ∷ steps) =
    check_step seen n step then_check check_order (see seen step) (suc n) steps

-- The second loop: masking after a restore into a database that was there already.
unfoldable pub check_mask : Option TargetNaming → ℕ → PipelineStep → Option PipelineError
check_mask (some (into_existing name)) n (mask rules) = some (masking_into_existing n name)
check_mask _ n _ = none

abbrev pub last_after : Option TargetNaming → PipelineStep → Option TargetNaming
last_after last (restore r) = some r.naming
last_after last _ = last

unfoldable pub check_masking : Option TargetNaming → ℕ → List PipelineStep → Option PipelineError
unfolding check_mask
check_masking last n [] = none
check_masking last n (step ∷ steps) =
    check_mask last n step then_check check_masking (last_after last step) (suc n) steps

-- The third loop, with the set of targets so far.
unfoldable pub check_targets : List Text → List Text → Option PipelineError
check_targets seen [] = none
check_targets seen (t ∷ ts) =
    let rest = check_targets (t ∷ seen) ts in
    if contains seen t then some (repeated_destructive_target t) else rest

abbrev pub nothing_seen : Seen
nothing_seen = record { backup = false; restore = false }

unfoldable pub check_name : Text → List PipelineStep → Option PipelineError
check_name name steps =
    if is_blank name then some no_name else if is_empty steps then some empty else none

-- `none` is `Ok(())`.
unfoldable pub validate_steps : Text → List PipelineStep → Option PipelineError
unfolding check_name check_order check_masking check_targets targets_of
validate_steps name steps =
    check_name name steps
    then_check check_order nothing_seen 1 steps
    then_check check_masking none 1 steps
    then_check check_targets [] (targets_of steps)

-- engine/src/store.rs: the writes to a stored pipeline. What each hands to the database is its result;
-- ids and instants are arguments.
pub record PipelineCreate : Type 0 where
  pub name : Text
  pub steps : List PipelineStep

pub record PipelineUpdate : Type 0 where
  pub name : Option Text
  pub steps : Option (List PipelineStep)

unfoldable pub create_pipeline : PipelineCreate → ℕ → ℕ → Result PipelineError Pipeline
create_pipeline input id now = unless (validate_steps input.name input.steps) (record {
  id = id;
  name = trim input.name;
  steps = input.steps;
  unattended_ack = none;
  created_at = now;
  updated_at = now;
})

abbrev pub patched : Pipeline → PipelineUpdate → ℕ → Pipeline
patched p patch now = record p {
  name = elim patch.name [ none ↦ p.name | some name ↦ trim name ];
  steps = elim patch.steps [ none ↦ p.steps | some steps ↦ steps ];
  unattended_ack = elim patch.steps [ none ↦ p.unattended_ack | some steps ↦ none ];
  updated_at = now;
}

unfoldable pub update_pipeline : Pipeline → PipelineUpdate → ℕ → Result PipelineError Pipeline
update_pipeline p patch now =
    let q = patched p patch now in unless (validate_steps q.name q.steps) q

unfoldable pub arm_pipeline : Pipeline → Option Text → ℕ → Result PipelineError Pipeline
arm_pipeline p none now = ok (record p { unattended_ack = none; updated_at = now })
arm_pipeline p (some typed) now = elim (destructive_signature p.steps) [
  | none ↦ err nothing_to_authorise
  | some expected ↦
      if typed == expected
      then ok (record p { unattended_ack = some expected; updated_at = now })
      else err (confirmation_does_not_match expected typed)
]

-- engine/src/scheduler.rs, `perform_pipeline`: the confirmations that an unattended run supplies.
unfoldable pub confirmations : Pipeline → List Text
confirmations p = elim p.unattended_ack [ none ↦ [] | some ack ↦ lines ack ]
