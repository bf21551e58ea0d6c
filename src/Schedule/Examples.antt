-- ===== src/Schedule/Examples.antt =====
-- A nightly copy of one database to a test server (engine/src/schedule.rs).
use mysql_ssh_db_sync.Prelude.{
  suc, ◌%◌, ◌≡◌, ◌≢◌, ◌↔◌, refl, true, false, none, some, [], ◌∷◌, text, is_blank, list_beq, ok,
  first_some, arith,
}
use mysql_ssh_db_sync.Backup
use mysql_ssh_db_sync.Backup.{with_data}
use mysql_ssh_db_sync.Restore
use mysql_ssh_db_sync.Restore.{new_timestamped, is_destructive}
use mysql_ssh_db_sync.Plan.{SyncPlan}
use mysql_ssh_db_sync.Cron.{
  single, Clock, has, day_matches, scan_within_day, scan_days, scan, prev_at_or_before_in,
}
use mysql_ssh_db_sync.Schedule.{
  ScheduleTimezone, utc, on_failure, sync, ParseUrl, Schedule, SyncRequest, validate, check_webhook,
  validate_webhook, check_kind, check_restore, due_at, sync_request, backup_request,
}
use mysql_ssh_db_sync.Schedule.Checks.{IsComplete, validate-IsComplete, sync_request_safe}
use mysql_ssh_db_sync.Schedule.Due.{IsDue, due_at-IsDue, due_at_once}

abbrev nightly : Schedule
nightly = record {
  id = 1;
  name = text "nightly";
  kind = sync;
  plan_id = some 4;
  dest_profile_id = some 2;
  pipeline_id = none;
  cron = record {
    minute = 1;
    hour = 4;
    dom = 0xfffffffe;
    month = 0x1ffe;
    dow = 0x7f;
    dom_star = true;
    dow_star = true;
    source = text "0 2 * * *";
  };
  timezone = utc;
  enabled = true;
  action = record {
    output_dir = text "/backups";
    compress = true;
    encrypt = false;
    backup = Backup.mongo (record {
      oplog = false;
      parallel_collections = none;
      dump_users_and_roles = false;
      extra_flags = [];
    });
    restore = some (record {
      naming = new_timestamped (text "test");
      options = Restore.mongo (record {
        drop_collections = true;
        only_collections = [];
        parallel_collections = none;
        insertion_workers = none;
        stop_on_error = true;
        restore_indexes = true;
        bypass_document_validation = false;
      });
    });
    verify = true;
    deep_verify = false;
    retention = none;
    record_row_counts = true;
    keep_on_failure = false;
  };
  webhook_url = some (text "https://hooks");
  notify = on_failure;
  catch_up = false;
  last_run_at = none;
  last_outcome = none;
  last_job_id = none;
  created_at = 50;
  updated_at = 50;
}

abbrev parse_url : ParseUrl
parse_url url = ok (text "https", some (text "hooks"))

abbrev tables : SyncPlan
tables = record {
  id = 4;
  profile_id = 1;
  name = text "orders";
  database = text "shop";
  selections = with_data (text "orders") ∷ [];
  masking = [];
  revision = 1;
  created_at = 0;
  updated_at = 0;
}

abbrev nightly_request : SyncRequest
nightly_request = record {
  backup = record {
    common = record {
      database = text "shop";
      selections = with_data (text "orders") ∷ [];
      output_dir = text "/backups";
      compress = true;
      encrypt = false;
      record_row_counts = true;
    };
    engine = Backup.mongo (record {
      oplog = false;
      parallel_collections = none;
      dump_users_and_roles = false;
      extra_flags = [];
    });
  };
  naming = new_timestamped (text "test");
  restore = Restore.mongo (record {
    drop_collections = true;
    only_collections = [];
    parallel_collections = none;
    insertion_workers = none;
    stop_on_error = true;
    restore_indexes = true;
    bypass_document_validation = false;
  });
  verify = true;
  deep_verify = false;
  masking = [];
  retention = none;
  typed_confirmation = none;
}

-- A clock that shows the minutes as they are counted.
abbrev minutes_only : ScheduleTimezone → Clock
minutes_only zone = record {
  last_date = 20;
  month = λ date. 3;
  day = λ date. suc date;
  num_days_from_sunday = λ date. date % 7;
  from_local_datetime = λ wall. single wall;
  wall_clock = λ at. at;
}

accepted : validate parse_url nightly ≡ none
unfolding validate check_webhook validate_webhook check_kind check_restore is_blank list_beq
accepted = refl

validate-IsComplete_example : (validate parse_url nightly ≡ none) ↔ IsComplete parse_url nightly
validate-IsComplete_example = validate-IsComplete parse_url nightly

requested : sync_request nightly tables ≡ some nightly_request
unfolding sync_request backup_request
requested = refl

sync_request_safe_example :
    (is_destructive nightly_request.naming ≡ false)
    × (nightly_request.typed_confirmation ≡ none)
    × (nightly_request.masking ≡ tables.masking)
    × (Restore.engine_of nightly_request.restore ≡ Backup.engine_of nightly_request.backup.engine)
sync_request_safe_example =
    sync_request_safe parse_url nightly tables nightly_request refl accepted requested

due_at_two : due_at minutes_only nightly 121 2 ≡ some 120
unfolding due_at prev_at_or_before_in scan scan_days day_matches has scan_within_day first_some
due_at_two = refl

due_at-IsDue_example : IsDue minutes_only nightly 121 2 120
due_at-IsDue_example = due_at-IsDue minutes_only nightly 121 2 120 due_at_two

due_at_once_example :
    due_at minutes_only (record nightly { last_run_at = some 121 }) 122 2 ≢ some 120
due_at_once_example = due_at_once minutes_only nightly 121 122 2 120 121 due_at_two (omega arith)
