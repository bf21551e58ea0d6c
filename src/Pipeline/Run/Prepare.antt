-- ===== src/Pipeline/Run/Prepare.antt =====
-- What a run decides before its first step (engine/src/ops.rs, `run_pipeline`): the tables of each
-- backup, and the columns of each masking.
use mysql_ssh_db_sync.Prelude.{
  ℕ, suc, Option, none, some, List, [], ◌∷◌, Text, if◌then◌else◌, ◌==◌, nat_beq, list_eq, nat_eq,
  Result, ok, err, ◌>>=◌, ok_or, get_elem?, ltb,
}
use mysql_ssh_db_sync.Types.{ConnectionProfile}
use mysql_ssh_db_sync.Backup.{TableSelection, BackupRequest}
use mysql_ssh_db_sync.Mask.{MaskRule, MaskingCoverage}
use mysql_ssh_db_sync.Plan.{SyncPlan}
use mysql_ssh_db_sync.Pipeline.{PipelineStep, backup, mask, BackupStep, table_set_moved_on}
use mysql_ssh_db_sync.Pipeline.Connections.{profile_of}
use mysql_ssh_db_sync.Pipeline.Run.{
  Operations, OpError, pipeline, profile_not_found, sync_plan_not_found, failed, panicked, Answer,
  PipelineRunRequest,
}

-- A map from step numbers, by ascending keys.
module _ {A : Type 0} where
  unfoldable pub lookup : ℕ → List (ℕ × A) → Option A
  lookup i [] = none
  lookup i ((k, a) ∷ rest) = let found = lookup i rest in if nat_beq k i then some a else found

  -- `range(..i).next_back()`.
  unfoldable pub last_before : ℕ → List (ℕ × A) → Option (ℕ × A)
  last_before i [] = none
  last_before i ((k, a) ∷ rest) = elim (last_before i rest) [
    | some found ↦ some found
    | none ↦ if ltb k i then some (k, a) else none
  ]

abbrev pub lift : {A : Type 0} → Answer A → Result OpError A
lift (ok a) = ok a
lift (err e) = err (failed e)

abbrev pub find_profile : List ConnectionProfile → ℕ → Result OpError ConnectionProfile
find_profile profiles id = ok_or (profile_of profiles id) (profile_not_found id)

module _ (ops : Operations) (request : PipelineRunRequest) (profiles : List ConnectionProfile) where
  -- A saved set, if it is of the database that is backed up.
  abbrev pub selections_of_plan : ℕ → BackupStep → SyncPlan → Result OpError (List TableSelection)
  selections_of_plan i b plan =
      if plan.database == b.database
      then ok plan.selections
      else err (pipeline (table_set_moved_on (suc i) plan.name b.database plan.database))

  unfoldable pub saved_selections : ℕ → BackupStep → Option ℕ → Result OpError (List TableSelection)
  saved_selections i b none = ok b.selections
  saved_selections i b (some id) =
      lift (ops.get_sync_plan i id)
      >>= (λ found. ok_or found (sync_plan_not_found id))
      >>= selections_of_plan i b

  abbrev pub output_dir : Option Text → Text
  output_dir none = request.default_output_dir
  output_dir (some dir) = dir

  unfoldable pub resolve_step : ℕ → BackupStep → Result OpError BackupRequest
  unfolding saved_selections
  resolve_step i b = find_profile profiles b.profile_id >>= λ source.
      saved_selections i b b.plan_id >>= λ saved.
      lift (ops.resolve_selections i source b.database saved) >>= λ selections. ok (record {
        common = record {
          database = b.database;
          selections = selections;
          output_dir = output_dir b.output_dir;
          compress = b.compress;
          encrypt = b.encrypt;
          record_row_counts = b.record_row_counts;
        };
        engine = b.engine;
      })

  -- The first loop, from a step number on.
  unfoldable pub resolve_steps : ℕ → List PipelineStep → Result OpError (List (ℕ × BackupRequest))
  unfolding resolve_step
  resolve_steps i [] = ok []
  resolve_steps i (backup b ∷ steps) = resolve_step i b >>= λ request.
      resolve_steps (suc i) steps >>= λ rest. ok ((i, request) ∷ rest)
  resolve_steps i (_ ∷ steps) = resolve_steps (suc i) steps

  -- `match &pipeline.steps[index]`: any other step, or none, is a panic.
  abbrev pub source_id : Option PipelineStep → Result OpError ℕ
  source_id (some (backup b)) = ok b.profile_id
  source_id _ = err panicked

  abbrev pub cover :
      List PipelineStep
      → ℕ
      → List MaskRule
      → ℕ × BackupRequest
      → Result OpError (Option MaskingCoverage)
  cover steps i rules (index, request) =
      source_id (get_elem? steps index) >>= find_profile profiles >>= λ source.
      lift (ops.plan_masking_for i source request.common.database rules request.common.selections)

  -- The second loop over the steps from number `i` on, which are the end of `steps`.
  unfoldable pub plan_masking :
      List PipelineStep
      → List (ℕ × BackupRequest)
      → ℕ
      → List PipelineStep
      → Result OpError (List (ℕ × Option MaskingCoverage))
  unfolding last_before
  plan_masking steps resolved i [] = ok []
  plan_masking steps resolved i (mask rules ∷ rest) = elim (last_before i resolved) [
    | none ↦ plan_masking steps resolved (suc i) rest
    | some entry ↦ cover steps i rules entry >>= λ coverage.
        plan_masking steps resolved (suc i) rest >>= λ others. ok ((i, coverage) ∷ others)
  ]
  plan_masking steps resolved i (_ ∷ rest) = plan_masking steps resolved (suc i) rest
