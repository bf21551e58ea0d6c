-- ===== src/Backup/Examples.antt =====
-- A request for an encrypted copy of one database (engine/src/backup/mod.rs), and the check of it.
use mysql_ssh_db_sync.Prelude.{◌≡◌, ◌↔◌, refl, true, false, none, [], ◌∷◌, Text, text, is_blank}
use mysql_ssh_db_sync.Types.{ConnectionProfile, dev}
use mysql_ssh_db_sync.Types
use mysql_ssh_db_sync.Backup.{
  with_data, MongoBackupOptions, mongo, BackupRequest, validate, check_engine, check_common,
  included_tables, check_parallel, check_mydumper, check_encrypt, check_filters, check_mongo,
}
use mysql_ssh_db_sync.Backup.Laws.{IsRunnable, validate-IsRunnable}

abbrev server : ConnectionProfile
server = record {
  id = 1;
  name = text "shop";
  engine = Types.mongo;
  environment = dev;
  ssh_connection_id = none;
  db = record { host = text "localhost"; port = 27017; user = text "root"; database = none };
  tool_overrides = record {
    mysqldump = none;
    mysql = none;
    mydumper = none;
    myloader = none;
    pg_dump = none;
    pg_dumpall = none;
    pg_restore = none;
    psql = none;
    mongodump = none;
    mongorestore = none;
  };
  created_at = 0;
  updated_at = 0;
}

abbrev archive : MongoBackupOptions
archive = record {
  oplog = false;
  parallel_collections = none;
  dump_users_and_roles = false;
  extra_flags = [];
}

abbrev copy_of : Text → BackupRequest
copy_of database = record {
  common = record {
    database = database;
    selections = with_data (text "orders") ∷ [];
    output_dir = text "/backups";
    compress = true;
    encrypt = true;
    record_row_counts = false;
  };
  engine = mongo archive;
}

copy_accepted : validate (copy_of (text "shop")) server ≡ none
unfolding validate check_engine check_common included_tables check_parallel check_mydumper
    check_encrypt check_filters check_mongo is_blank
copy_accepted = refl

validate-IsRunnable_example :
    (validate (copy_of (text "shop")) server ≡ none) ↔ IsRunnable (copy_of (text "shop")) server
validate-IsRunnable_example = validate-IsRunnable (copy_of (text "shop")) server
