-- ===== src/Pipeline/Examples.antt =====
-- A chain that copies a production database over a staging one (engine/src/pipeline.rs).
use mysql_ssh_db_sync.Prelude.{
  ◌≡◌, ◌↔◌, refl, true, false, none, some, List, [], ◌∷◌, text, All, IsLine, ok, join, is_blank,
  list_beq, arith, nat_eq, list_eq,
}
use mysql_ssh_db_sync.Backup
use mysql_ssh_db_sync.Restore
use mysql_ssh_db_sync.Restore.{drop_and_recreate}
use mysql_ssh_db_sync.Pipeline.{
  previous_step, PipelineStep, backup, restore, verify, Pipeline, create_pipeline, arm_pipeline,
  validate_steps, check_name, check_order, check_step, check_masking, check_mask, check_targets,
  targets_of, dropped_by, destructive_signature, is_armed, is_destructive, confirmations,
}
use mysql_ssh_db_sync.Pipeline.Spec.{IsWellFormed}
use mysql_ssh_db_sync.Pipeline.Steps.{validate_steps-IsWellFormed}
use mysql_ssh_db_sync.Pipeline.Arming.{
  Stored, created, armed, AckIsCurrent, Stored-AckIsCurrent, armed_targets_unique,
  armed-confirmations,
}

abbrev copy_shop : PipelineStep
copy_shop = backup (record {
  profile_id = 1;
  database = text "shop";
  plan_id = none;
  selections = [];
  output_dir = none;
  compress = true;
  encrypt = false;
  record_row_counts = true;
  engine = Backup.mongo (record {
    oplog = false;
    parallel_collections = none;
    dump_users_and_roles = false;
    extra_flags = [];
  });
})

abbrev replace_staging : PipelineStep
replace_staging = restore (record {
  profile_id = 2;
  source = previous_step;
  naming = drop_and_recreate (text "staging");
  engine = Restore.mongo (record {
    drop_collections = true;
    only_collections = [];
    parallel_collections = none;
    insertion_workers = none;
    stop_on_error = true;
    restore_indexes = true;
    bypass_document_validation = false;
  });
  verify_checksum = true;
})

abbrev refresh : List PipelineStep
refresh = copy_shop ∷ replace_staging ∷ verify false ∷ []

validate_steps-IsWellFormed_example :
    (validate_steps (text "refresh") refresh ≡ none) ↔ IsWellFormed (text "refresh") refresh
validate_steps-IsWellFormed_example = validate_steps-IsWellFormed (text "refresh") refresh

abbrev saved : Pipeline
saved = record {
  id = 7;
  name = text "refresh";
  steps = refresh;
  unattended_ack = none;
  created_at = 10;
  updated_at = 10;
}

abbrev permitted : Pipeline
permitted = record saved { unattended_ack = some (text "staging"); updated_at = 11 }

saved_lem : create_pipeline (record { name = text " refresh "; steps = refresh }) 7 10 ≡ ok saved
unfolding create_pipeline validate_steps check_name check_order check_step check_masking check_mask
    check_targets targets_of dropped_by is_blank
saved_lem = refl

permitted_lem : arm_pipeline saved (some (text "staging")) 11 ≡ ok permitted
unfolding arm_pipeline destructive_signature targets_of dropped_by join list_beq
permitted_lem = refl

permitted-Stored : Stored permitted
permitted-Stored =
    armed (some (text "staging")) 11
      (created (record { name = text " refresh "; steps = refresh }) 7 10 saved_lem) permitted_lem

Stored-AckIsCurrent_example : IsWellFormed permitted.name permitted.steps × AckIsCurrent permitted
Stored-AckIsCurrent_example = Stored-AckIsCurrent permitted-Stored

permitted-is_armed : is_armed permitted ≡ true
unfolding is_armed destructive_signature targets_of dropped_by join list_beq
permitted-is_armed = refl

staging-IsLine : All IsLine (targets_of permitted.steps)
unfolding targets_of dropped_by
staging-IsLine = ground arith

armed_targets_unique_example : targets_of permitted.steps ≡ targets_of permitted.steps
armed_targets_unique_example =
    armed_targets_unique permitted permitted staging-IsLine staging-IsLine refl permitted-is_armed
      permitted-is_armed

armed-confirmations_example :
    (is_destructive permitted ≡ true) × (confirmations permitted ≡ targets_of permitted.steps)
armed-confirmations_example = armed-confirmations permitted staging-IsLine permitted-is_armed
