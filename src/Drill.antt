-- ===== src/Drill.antt =====
-- engine/src/ops.rs: a restore drill, from the newest artifact to the scratch database that is
-- dropped again. What the server, the directory and the restore answer are parameters; the steps
-- that are recorded beside it are left out.
pub mod Scratch
pub mod Checks
mod Examples
use mysql_ssh_db_sync.Prelude.{
  ℕ, zero, suc, length, Bool, true, false, not, ◌&&◌, ◌||◌, Option, none, some, List, [], ◌∷◌, ◌++◌,
  map, Text, text, leb, nat_beq, if◌then◌else◌, is_empty, filter, contains, all, take, strip_prefix,
  split_once, byte_len, is_ascii_digit, Result, ok, err, ◌>>=◌, ok_or, lookup, ◌==◌, list_eq,
  nat_eq,
}
use mysql_ssh_db_sync.Types.{BackupManifest}
use mysql_ssh_db_sync.Restore.{RestoreRequest, EngineRestoreOptions, new_timestamped}
use mysql_ssh_db_sync.Verify.{
  TableVerdict, TableVerification, VerificationReport, match, missing_at_destination,
  row_count_mismatch, skipped, count_failures, count_skipped, passed,
}
use mysql_ssh_db_sync.Pipeline.Run.{DrillOutcome}

abbrev pub drill_prefix_text : Text
drill_prefix_text = text "dbsync_drill"

abbrev pub discriminator_len : ℕ
discriminator_len = 6

-- Of the digits of a fresh UUID.
unfoldable pub drill_prefix : Text → Text
drill_prefix uuid = drill_prefix_text ++ (text "_" ++ take discriminator_len uuid)

-- `char::is_ascii_hexdigit`.
abbrev pub is_ascii_hexdigit : ℕ → Bool
is_ascii_hexdigit c = is_ascii_digit c || (leb 65 c && leb c 70) || (leb 97 c && leb c 102)

-- The characters from the `i`th on.
abbrev pub stamp_from : ℕ → Text → Bool
stamp_from i [] = true
stamp_from i (c ∷ s) =
    (if nat_beq i 8 then nat_beq c 95 else is_ascii_digit c) && stamp_from (suc i) s

unfoldable pub is_drill_stamp : Text → Bool
is_drill_stamp stamp = nat_beq (byte_len stamp) 15 && stamp_from 0 stamp

abbrev pub has_discriminator : Text → Text → Bool
has_discriminator head tail =
    nat_beq (byte_len head) discriminator_len && (all is_ascii_hexdigit head && is_drill_stamp tail)

-- What should be the time, of what stands behind the prefix.
abbrev pub stamp_part : Text → Option (Text × Text) → Text
stamp_part rest none = rest
stamp_part rest (some (head, tail)) = if has_discriminator head tail then tail else rest

abbrev pub is_drill_rest : Option Text → Bool
is_drill_rest none = false
is_drill_rest (some rest) = is_drill_stamp (stamp_part rest (split_once 95 rest))

abbrev pub strip_both : Option Text → Option Text
strip_both none = none
strip_both (some rest) = strip_prefix (text "_") rest

unfoldable pub is_drill_database : Text → Bool
unfolding is_drill_stamp strip_prefix split_once
is_drill_database name = is_drill_rest (strip_both (strip_prefix drill_prefix_text name))

abbrev restored_empty : Text
restored_empty =
    text
      "restored empty, and this backup did not record source row counts — so an empty table cannot be told apart from one that lost its rows. Turn on row counts for the backup to compare exactly"

-- Of a table that was backed up with its rows: what arrived, and what the backup had counted.
unfoldable pub data_verdict : Option ℕ → Option ℕ → TableVerdict
data_verdict none recorded = missing_at_destination
data_verdict (some actual) (some source) =
    if not (nat_beq actual source) then row_count_mismatch source actual else match
data_verdict (some actual) none = if nat_beq actual 0 then skipped restored_empty else match

abbrev pub structure_verdict : Option ℕ → TableVerdict
structure_verdict none = missing_at_destination
structure_verdict (some actual) = match

module _ (manifest : BackupManifest) where
  abbrev pub schema_only : List Text
  schema_only = filter (λ t. not (contains manifest.tables_with_data t)) manifest.tables

  module _ (counts : List (Text × ℕ)) where
    abbrev pub check_data_table : Text → TableVerification
    check_data_table name = record {
      table = name;
      verdict = data_verdict (lookup name counts) (lookup name manifest.source_row_counts);
    }

    abbrev pub check_structure : Text → TableVerification
    check_structure name = record { table = name; verdict = structure_verdict (lookup name counts) }

    unfoldable pub count_report : VerificationReport
    unfolding data_verdict lookup
    count_report =
        let tables =
          map check_data_table manifest.tables_with_data ++ map check_structure schema_only in
        record {
          tables = tables;
          tables_checked = length tables;
          failures = count_failures tables;
          skipped = count_skipped tables;
        }

-- A table whose rows could not all be read, though it has columns.
abbrev pub is_unreadable : Option (Option Text) → Option (List Text) → Bool
is_unreadable (some none) (some columns) = not (is_empty columns)
is_unreadable _ _ = false

abbrev pub read_through : Bool → TableVerdict → TableVerdict
read_through true match = skipped (text "could not be read end to end")
read_through _ verdict = verdict

unfoldable pub deep_report :
    List (Text × Option Text) → List (Text × List Text) → VerificationReport → VerificationReport
unfolding lookup
deep_report digests columns report =
    let tables =
      map
        (λ t. record {
          table = t.table;
          verdict =
              read_through (is_unreadable (lookup t.table digests) (lookup t.table columns))
                t.verdict;
        })
        report.tables in
    record report { tables = tables; skipped = count_skipped tables }

pub record Artifact : Type 0 where
  pub path : Text
  pub filename : Text

pub data DrillError : Type 0 where
  no_backups no_readable_manifest : Text → DrillError
  refusing_to_drop : Text → DrillError
  failed : ℕ → DrillError

-- What happened to the server.
pub data DrillEvent : Type 0 where
  restored : RestoreRequest → Text → DrillEvent
  dropped : Text → DrillEvent

-- The answers of the directory, the restore and the server.
pub record DrillSite : Type 0 where
  pub uuid : Text
  pub newest : Option Artifact
  pub read_manifest : Text → Option BackupManifest
  pub restore : RestoreRequest → Result ℕ Text
  pub count_tables : Text → List Text → Result ℕ (List (Text × ℕ))
  pub digest_tables :
      Text → List Text → Result ℕ (List (Text × Option Text) × List (Text × List Text))
  pub drop_database : Text → Result ℕ (Unit {0})

abbrev pub or_failed {ℓ} : {A : Type ℓ} → Result ℕ A → Result DrillError A
or_failed (ok a) = ok a
or_failed (err e) = err (failed e)

module _ (site : DrillSite) where
  abbrev pub deep_pass :
      BackupManifest → Text → VerificationReport → Result DrillError VerificationReport
  deep_pass manifest scratch report =
      or_failed (site.digest_tables scratch manifest.tables) >>= λ (digests, columns).
      ok (deep_report digests columns report)

  unfoldable pub check_against_manifest :
      BackupManifest → Text → Bool → Result DrillError VerificationReport
  unfolding count_report deep_report
  check_against_manifest manifest scratch deep =
      or_failed (site.count_tables scratch manifest.tables) >>= λ counts.
      let report = count_report manifest counts in
      (if deep then deep_pass manifest scratch report else ok report)

  -- The events, and whether the database is gone.
  abbrev pub dropping : Text → Result ℕ (Unit {0}) → List DrillEvent × Result DrillError (Unit {0})
  dropping name (ok _) = (dropped name ∷ [], ok tt)
  dropping name (err e) = ([], err (failed e))

  unfoldable pub drop_scratch_database : Text → List DrillEvent × Result DrillError (Unit {0})
  unfolding is_drill_database
  drop_scratch_database name =
      if not (is_drill_database name)
      then ([], err (refusing_to_drop name))
      else dropping name (site.drop_database name)

  abbrev pub scratch_request : EngineRestoreOptions → Text → RestoreRequest
  scratch_request options path = record {
    artifact_path = path;
    naming = new_timestamped (drill_prefix site.uuid);
    engine = options;
    verify_checksum = true;
    typed_confirmation = none;
  }

  module _ (keep_on_failure : Bool) (artifact : Artifact) where
    abbrev pub outcome : Text → Bool → VerificationReport → DrillOutcome
    outcome scratch gone report = record {
      artifact = artifact.filename;
      scratch_database = scratch;
      dropped = gone;
      report = report;
    }

    abbrev pub conclude :
        Text
        → VerificationReport
        → List DrillEvent × Result DrillError (Unit {0})
        → List DrillEvent × Result DrillError DrillOutcome
    conclude scratch report (events, gone) =
        (events, gone >>= λ _. ok (outcome scratch true report))

    -- The end, once the report is there.
    unfoldable pub clean_up :
        Text → VerificationReport → List DrillEvent × Result DrillError DrillOutcome
    unfolding drop_scratch_database
    clean_up scratch report =
        if not (passed report) && keep_on_failure
        then ([], ok (outcome scratch false report))
        else conclude scratch report (drop_scratch_database scratch)

    abbrev pub after_check :
        Text
        → Result DrillError VerificationReport
        → List DrillEvent × Result DrillError DrillOutcome
    after_check scratch (err e) = ([], err e)
    after_check scratch (ok report) = clean_up scratch report

    abbrev pub with_event :
        DrillEvent
        → List DrillEvent × Result DrillError DrillOutcome
        → List DrillEvent × Result DrillError DrillOutcome
    with_event e (events, result) = (e ∷ events, result)

    module _ (options : EngineRestoreOptions) (deep : Bool) where
      abbrev pub after_scratch :
          BackupManifest → Result ℕ Text → List DrillEvent × Result DrillError DrillOutcome
      after_scratch manifest (err e) = ([], err (failed e))
      after_scratch manifest (ok scratch) =
          with_event (restored (scratch_request options artifact.path) scratch)
            (after_check scratch (check_against_manifest manifest scratch deep))

      abbrev pub drill_artifact :
          Option BackupManifest → List DrillEvent × Result DrillError DrillOutcome
      drill_artifact none = ([], err (no_readable_manifest artifact.filename))
      drill_artifact (some manifest) =
          after_scratch manifest (site.restore (scratch_request options artifact.path))

  unfoldable pub drill :
      Text → EngineRestoreOptions → Bool → Bool → List DrillEvent × Result DrillError DrillOutcome
  unfolding check_against_manifest clean_up drill_prefix
  drill dir options deep keep_on_failure = elim site.newest [
    | none ↦ ([], err (no_backups dir))
    | some artifact ↦
        drill_artifact keep_on_failure artifact options deep (site.read_manifest artifact.path)
  ]
