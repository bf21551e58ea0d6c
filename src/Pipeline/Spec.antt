-- ===== src/Pipeline/Spec.antt =====
-- What a well-formed chain is, said of each step and the steps before it (engine/src/pipeline.rs).
use mysql_ssh_db_sync.Prelude.{
  ◌≡◌, ◌≢◌, Bool, true, false, Option, none, some, List, [], ◌∷◌, ◌++◌, Text, is_blank, any, All,
}
use mysql_ssh_db_sync.Restore.{TargetNaming, into_existing}
use mysql_ssh_db_sync.Retention.{is_enabled}
use mysql_ssh_db_sync.Pipeline.{
  previous_step, PipelineStep, backup, restore, verify, mask, push_offsite, retention, drill,
  last_after, targets_of,
}

abbrev pub is_backup : PipelineStep → Bool
is_backup (backup b) = true
is_backup _ = false

abbrev pub is_restore : PipelineStep → Bool
is_restore (restore r) = true
is_restore _ = false

abbrev pub HasBackup : List PipelineStep → Type 0
HasBackup steps = any is_backup steps ≡ true

abbrev pub HasRestore : List PipelineStep → Type 0
HasRestore steps = any is_restore steps ≡ true

-- The naming of the last restore among some steps, or else `last`.
abbrev pub last_restore : List PipelineStep → Option TargetNaming → Option TargetNaming
last_restore [] last = last
last_restore (step ∷ steps) last = last_restore steps (last_after last step)

-- What a step needs of the steps before it, and of itself.
abbrev pub Allowed : List PipelineStep → PipelineStep → Type 0
Allowed before (backup b) = is_blank b.database ≡ false
Allowed before (restore r) = r.source ≡ previous_step → HasBackup before
Allowed before (verify deep) = HasRestore before × HasBackup before
Allowed before (mask rules) =
    HasRestore before
    × (rules ≢ [])
    × ((name : Text) → last_restore before none ≢ some (into_existing name))
Allowed before push_offsite = HasBackup before
Allowed before (retention policy) = HasBackup before × (is_enabled policy ≡ true)
Allowed before (drill d) = Unit

abbrev pub Distinct : List Text → Type 0
Distinct [] = Unit
Distinct (t ∷ ts) = All (λ u. u ≢ t) ts × Distinct ts

pub record IsWellFormed (name : Text) (steps : List PipelineStep) : Type 0 where
  pub named : is_blank name ≡ false
  pub some_step : steps ≢ []
  pub in_order :
      (before : List PipelineStep) (step : PipelineStep) (after : List PipelineStep)
      → before ++ step ∷ after ≡ steps
      → Allowed before step
  pub distinct_targets : Distinct (targets_of steps)
