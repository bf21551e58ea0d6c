-- ===== src/Drill/Examples.antt =====
-- A drill of a backup of two tables (engine/src/ops.rs).
use mysql_ssh_db_sync.Prelude.{
  ℕ, ◌≡◌, ◌↔◌, refl, arith, true, false, none, some, List, [], ◌∷◌, Text, text, ok,
}
use mysql_ssh_db_sync.Types.{BackupManifest, mysql, sql_gz}
use mysql_ssh_db_sync.Restore as Restore
use mysql_ssh_db_sync.Restore.{EngineRestoreOptions, resolve}
use mysql_ssh_db_sync.Verify.{VerificationReport, passed}
use mysql_ssh_db_sync.Drill.{
  DrillSite, is_drill_stamp, is_drill_database, drill, count_report, check_against_manifest,
}
use mysql_ssh_db_sync.Drill.Scratch.{Finished, drill-Finished}
use mysql_ssh_db_sync.Drill.Checks.{Complete, IsTallied, passed-check_against_manifest}

abbrev at_night : ℕ → Text
at_night now = text "20260726_030000"

abbrev options : EngineRestoreOptions
options = Restore.mongo (record {
  drop_collections = true;
  only_collections = [];
  parallel_collections = none;
  insertion_workers = none;
  stop_on_error = true;
  restore_indexes = true;
  bypass_document_validation = false;
})

abbrev manifest : BackupManifest
manifest = record {
  manifest_version = 1;
  id = 1;
  source_profile_id = 2;
  source_profile_name = text "shop";
  engine = mysql;
  server_version = text "8.4.0";
  dump_tool = text "mysqldump";
  dump_tool_version = text "8.4.0";
  database = text "shop";
  created_at = 0;
  format = sql_gz;
  tables = text "orders" ∷ text "audit" ∷ [];
  tables_with_data = text "orders" ∷ [];
  source_row_counts = (text "orders", 100) ∷ [];
  options = text "{}";
  artifact_filename = text "shop.sql.gz";
  size_bytes = 10;
  sha256 = text "aa";
  encrypted = false;
  encryption_recipients = [];
}

abbrev counts : List (Text × ℕ)
counts = (text "audit", 0) ∷ (text "orders", 99) ∷ []

abbrev site : DrillSite
site = record {
  uuid = text "0f3a5c77";
  newest = some (record { path = text "/b/shop.sql.gz"; filename = text "shop.sql.gz" });
  read_manifest = λ path. some manifest;
  restore = λ r. ok (resolve at_night r.naming 0);
  count_tables = λ scratch tables. ok counts;
  digest_tables = λ scratch tables. ok ([], []);
  drop_database = λ name. ok tt;
}

-- The test of a name keeps to what a drill can have made.
known_names :
    (is_drill_database (text "dbsync_drill_0f3a5c_20260726_030000") ≡ true)
    × (is_drill_database (text "dbsync_drill_20260726_030000") ≡ true)
    × (is_drill_database (text "dbsync_drills_20260726_030000") ≡ false)
    × (is_drill_database (text "dbsync_drill_prod") ≡ false)
unfolding is_drill_database
known_names = (refl, refl, refl, refl)

drill-Finished_example : Finished (drill site (text "/b") options false true)
unfolding is_drill_stamp
drill-Finished_example =
    drill-Finished site ((omega arith, refl)) at_night (λ now. refl)
      (λ r s h. (0, ground (arith, h))) (text "/b") options false true

abbrev lost : VerificationReport
lost = count_report manifest counts

checked : check_against_manifest site manifest (text "scratch") false ≡ ok lost
unfolding check_against_manifest
checked = refl

passed-check_against_manifest_example :
    ((passed lost ≡ true) ↔ Complete manifest counts) × IsTallied lost
passed-check_against_manifest_example =
    passed-check_against_manifest site manifest (text "scratch") false counts lost refl checked
