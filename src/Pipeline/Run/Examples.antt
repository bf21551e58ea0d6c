-- ===== src/Pipeline/Run/Examples.antt =====
-- Runs of the chain that copies a production database over a staging one (engine/src/ops.rs).
use mysql_ssh_db_sync.Prelude.{
  ℕ, ◌≡◌, ◌≢◌, ◌↔◌, refl, true, false, none, some, List, [], ◌∷◌, Text, text, All, IsLine, ok, err,
  map, arith, join, is_blank, list_beq, lines, split, lines_of,
}
use mysql_ssh_db_sync.Types
use mysql_ssh_db_sync.Types.{ConnectionProfile, EnvironmentTag, prod, staging}
use mysql_ssh_db_sync.Backup
use mysql_ssh_db_sync.Backup.{with_data}
use mysql_ssh_db_sync.Restore
use mysql_ssh_db_sync.Restore.{drop_and_recreate}
use mysql_ssh_db_sync.Retention.{is_enabled}
use mysql_ssh_db_sync.Pipeline.{
  previous_step, PipelineStep, backup, restore, verify, retention, Pipeline, validate_steps,
  check_name, check_order, check_step, check_masking, check_mask, check_targets, targets_of,
  dropped_by, destructive_signature, is_armed, confirmations,
}
use mysql_ssh_db_sync.Pipeline.Engines.{RunsOn, validate_against-RunsOn}
use mysql_ssh_db_sync.Pipeline.Connections.{
  validate_against, check_profiles, check_engines, check_engine, engine_of, mismatch,
}
use mysql_ssh_db_sync.Pipeline.Run.{kind, PipelineRunRequest, Operations, panicked, stopped}
use mysql_ssh_db_sync.Pipeline.Run.Prepare.{
  lookup, last_before, resolve_steps, resolve_step, saved_selections, plan_masking,
}
use mysql_ssh_db_sync.Pipeline.Run.Walk.{
  after_backup, after_restore, after_verify, take_confirmation, call_backup, artifact_of,
  call_restore, verify_request, call_verify, verify_step, call_retention, retention_step, run_step,
  run_steps, run_pipeline, at_start,
}
use mysql_ssh_db_sync.Pipeline.Run.Journal.{Sanctioned, EachAfter, log_of}
use mysql_ssh_db_sync.Pipeline.Run.Gates.{run_pipeline-Sanctioned}
use mysql_ssh_db_sync.Pipeline.Run.Panics.{run_pipeline_no_panic}
use mysql_ssh_db_sync.Pipeline.Run.Completion.{settled, RecordsOf, run_pipeline-RecordsOf}
use mysql_ssh_db_sync.Pipeline.Run.Unattended.{NamesItself, unattended-NamesItself}

abbrev server : ℕ → Text → EnvironmentTag → ConnectionProfile
server id name environment = record {
  id = id;
  name = name;
  engine = Types.mongo;
  environment = environment;
  ssh_connection_id = none;
  db = record { host = text "localhost"; port = 27017; user = text "root"; database = none };
  tool_overrides = record {
    mysqldump = none;
    mysql = none;
    mydumper = none;
    myloader = none;
    pg_dump = none;
    pg_dumpall = none;
    pg_restore = none;
    psql = none;
    mongodump = none;
    mongorestore = none;
  };
  created_at = 0;
  updated_at = 0;
}

abbrev refresh : List PipelineStep
refresh =
    backup (record {
      profile_id = 1;
      database = text "shop";
      plan_id = none;
      selections = [];
      output_dir = none;
      compress = true;
      encrypt = false;
      record_row_counts = true;
      engine = Backup.mongo (record {
        oplog = false;
        parallel_collections = none;
        dump_users_and_roles = false;
        extra_flags = [];
      });
    })
    ∷ restore (record {
      profile_id = 2;
      source = previous_step;
      naming = drop_and_recreate (text "staging");
      engine = Restore.mongo (record {
        drop_collections = true;
        only_collections = [];
        parallel_collections = none;
        insertion_workers = none;
        stop_on_error = true;
        restore_indexes = true;
        bypass_document_validation = false;
      });
      verify_checksum = true;
    })
    ∷ verify false
    ∷ retention (record { keep_last = some 3; max_age_days = none })
    ∷ []

abbrev nightly : Pipeline
nightly = record {
  id = 7;
  name = text "refresh";
  steps = refresh;
  unattended_ack = some (text "staging");
  created_at = 10;
  updated_at = 11;
}

-- Everything works, but the verification finds a difference.
abbrev answers : Operations
answers = record {
  list_profiles = ok (server 1 (text "live") prod ∷ server 2 (text "test") staging ∷ []);
  get_sync_plan = λ i id. ok none;
  resolve_selections = λ i source database saved. ok (with_data (text "orders") ∷ []);
  plan_masking_for = λ i source database rules selections. ok none;
  is_cancelled = λ log. false;
  newest_artifact = λ log dir. err 1;
  run_backup = λ log source req. ok (text "/backups/shop.gz");
  run_restore = λ log dest req. ok (text "staging");
  mask_destination = λ log dest target coverage. err 2;
  verify_restore =
      λ log req. ok (record { tables = []; tables_checked = 1; failures = 1; skipped = 0 });
  send_offsite = λ log artifact. ok [];
  apply_retention = λ log dir policy. text "/backups/old.gz" ∷ [];
  run_drill = λ log dest req. err 3;
}

abbrev tonight : PipelineRunRequest
tonight = record { typed_confirmations = text "staging" ∷ []; default_output_dir = text "/backups" }

-- All four steps are settled.
four_settled : settled (log_of (run_pipeline answers tonight nightly)) ≡ map kind refresh
unfolding run_pipeline validate_against validate_steps check_name check_order check_step
    check_masking check_mask check_targets targets_of dropped_by is_blank check_profiles
    check_engines check_engine engine_of mismatch resolve_steps resolve_step saved_selections
    plan_masking last_before lookup run_steps run_step call_backup after_backup artifact_of
    call_restore take_confirmation after_restore verify_step verify_request call_verify after_verify
    retention_step call_retention is_enabled
four_settled = refl

run_pipeline-Sanctioned_example :
    EachAfter
      (Sanctioned tonight.typed_confirmations)
      (log_of (run_pipeline answers tonight nightly))
run_pipeline-Sanctioned_example = run_pipeline-Sanctioned answers tonight nightly

run_pipeline_no_panic_example :
    run_pipeline answers tonight nightly ≢ stopped (at_start answers tonight) panicked
run_pipeline_no_panic_example =
    run_pipeline_no_panic answers tonight nightly (at_start answers tonight)

run_pipeline-RecordsOf_example : RecordsOf refresh (run_pipeline answers tonight nightly)
run_pipeline-RecordsOf_example = run_pipeline-RecordsOf answers tonight nightly

staging-IsLine : All IsLine (targets_of nightly.steps)
unfolding targets_of dropped_by
staging-IsLine = ground arith

nightly-is_armed : is_armed nightly ≡ true
unfolding is_armed destructive_signature targets_of dropped_by join list_beq
nightly-is_armed = refl

tonight-confirmations : tonight.typed_confirmations ≡ confirmations nightly
unfolding confirmations lines split lines_of
tonight-confirmations = refl

unattended-NamesItself_example :
    EachAfter NamesItself (log_of (run_pipeline answers tonight nightly))
unattended-NamesItself_example =
    unattended-NamesItself answers tonight nightly staging-IsLine nightly-is_armed
      tonight-confirmations

validate_against-RunsOn_example :
    (validate_against nightly (server 1 (text "live") prod ∷ server 2 (text "test") staging ∷ [])
      ≡ none)
    ↔ RunsOn nightly (server 1 (text "live") prod ∷ server 2 (text "test") staging ∷ [])
validate_against-RunsOn_example =
    validate_against-RunsOn nightly
      (server 1 (text "live") prod ∷ server 2 (text "test") staging ∷ [])
