-- ===== src/Backup.antt =====
-- engine/src/backup/mod.rs: the options of a backup, and the check of a request.
pub mod Laws
mod Examples
use mysql_ssh_db_sync.Prelude.{
  ℕ, Bool, true, false, not, ◌&&◌, ◌||◌, Option, none, some, List, Text, if◌then◌else◌, is_some,
  is_none, is_empty, is_blank, filter, find, nat_beq, ◌==◌, PartialEq, ◌≡◌, arith,
}
use mysql_ssh_db_sync.Types.{
  Engine, ArtifactFormat, ConnectionProfile, engine_eq, sql_gz, pg_custom, pg_directory,
  mydumper_dir, mongo_archive,
}

pub data TableMode : Type 0 where
  schema_and_data schema_only exclude : TableMode

abbrev pub mode_beq : TableMode → TableMode → Bool
mode_beq schema_and_data schema_and_data = true
mode_beq schema_only schema_only = true
mode_beq exclude exclude = true
mode_beq _ _ = false

pub mode_beq→eq : (a b : TableMode) → mode_beq a b ≡ true → a ≡ b
mode_beq→eq a b h = ground arith

pub mode_beq_self : (a : TableMode) → mode_beq a a ≡ true
mode_beq_self a = ground arith

instance abbrev pub mode_eq : PartialEq TableMode
mode_eq = record { test = mode_beq; sound = mode_beq→eq; accepts_self = mode_beq_self }

pub record TableSelection : Type 0 where
  pub name : Text
  pub mode : TableMode
  pub where_filter : Option Text

abbrev pub structure_of : Text → TableSelection
structure_of name = record { name = name; mode = schema_only; where_filter = none }

abbrev pub with_data : Text → TableSelection
with_data name = record { name = name; mode = schema_and_data; where_filter = none }

pub record CommonBackupOptions : Type 0 where
  pub database : Text
  pub selections : List TableSelection
  pub output_dir : Text
  pub compress : Bool
  pub encrypt : Bool
  pub record_row_counts : Bool

unfoldable pub tables_with_data : CommonBackupOptions → List TableSelection
tables_with_data o = filter (λ s. s.mode == schema_and_data) o.selections

unfoldable pub included_tables : CommonBackupOptions → List TableSelection
included_tables o = filter (λ s. not (s.mode == exclude)) o.selections

pub record MysqlBackupOptions : Type 0 where
  pub single_transaction : Bool
  pub hex_blob : Bool
  pub set_gtid_purged_off : Bool
  pub add_drop_table : Bool
  pub extended_insert : Bool
  pub routines : Bool
  pub triggers : Bool
  pub events : Bool
  pub default_character_set : Text
  pub disable_column_statistics : Bool
  pub strip_definer : Bool
  pub parallel_threads : Option ℕ
  pub extra_flags : List Text

pub data PgDumpFormat : Type 0 where
  custom directory plain : PgDumpFormat

abbrev pub format_of : PgDumpFormat → ArtifactFormat
format_of custom = pg_custom
format_of directory = pg_directory
format_of plain = sql_gz

abbrev pub supports_parallel_dump : PgDumpFormat → Bool
supports_parallel_dump directory = true
supports_parallel_dump _ = false

abbrev pub is_plain : PgDumpFormat → Bool
is_plain plain = true
is_plain _ = false

pub record PostgresBackupOptions : Type 0 where
  pub format : PgDumpFormat
  pub no_owner : Bool
  pub no_privileges : Bool
  pub blobs : Bool
  pub schemas : List Text
  pub serializable_deferrable : Bool
  pub parallel_jobs : Option ℕ
  pub include_globals : Bool
  pub extra_flags : List Text

pub record MongoBackupOptions : Type 0 where
  pub oplog : Bool
  pub parallel_collections : Option ℕ
  pub dump_users_and_roles : Bool
  pub extra_flags : List Text

pub data EngineBackupOptions : Type 0 where
  mysql : MysqlBackupOptions → EngineBackupOptions
  postgres : PostgresBackupOptions → EngineBackupOptions
  mongo : MongoBackupOptions → EngineBackupOptions

abbrev pub engine_of : EngineBackupOptions → Engine
engine_of (mysql o) = Engine.mysql
engine_of (postgres o) = Engine.postgres
engine_of (mongo o) = Engine.mongo

unfoldable pub artifact_format : EngineBackupOptions → ArtifactFormat
artifact_format (mysql o) = if is_some o.parallel_threads then mydumper_dir else sql_gz
artifact_format (postgres o) = format_of o.format
artifact_format (mongo o) = mongo_archive

pub record BackupRequest : Type 0 where
  pub common : CommonBackupOptions
  pub engine : EngineBackupOptions

-- `Invalid` carries a message in the code; here it carries what the message says.
pub data BackupError : Type 0 where
  engine_mismatch : Engine → Engine → BackupError
  no_database : BackupError
  all_excluded : BackupError
  parallel_needs_directory : PgDumpFormat → BackupError
  no_parallel_jobs : BackupError
  mydumper_not_implemented : BackupError
  encrypt_needs_plain : PgDumpFormat → BackupError
  encrypt_needs_stream : BackupError
  filter_without_data : Text → BackupError
  mongo_structure_only : Text → BackupError
  mongo_filter : Text → BackupError

-- Each check returns its error, if it has one; `then_check` goes on where there is none.
infixr 5 ◌then_check◌
abbrev pub ◌then_check◌ : Option BackupError → Option BackupError → Option BackupError
none then_check rest = rest
some e then_check rest = some e

unfoldable pub check_engine : BackupRequest → ConnectionProfile → Option BackupError
check_engine r profile =
    if profile.engine == engine_of r.engine
    then none
    else some (engine_mismatch profile.engine (engine_of r.engine))

unfoldable pub check_common : CommonBackupOptions → Option BackupError
unfolding included_tables
check_common o =
    if is_blank o.database
    then some no_database
    else if is_empty (included_tables o)
    then some all_excluded
    else none

unfoldable pub check_parallel : EngineBackupOptions → Option BackupError
check_parallel (postgres o) = elim o.parallel_jobs [
  | none ↦ none
  | some jobs ↦
      if not (supports_parallel_dump o.format)
      then some (parallel_needs_directory o.format)
      else if nat_beq jobs 0
      then some no_parallel_jobs
      else none
]
check_parallel _ = none

unfoldable pub check_mydumper : EngineBackupOptions → Option BackupError
check_mydumper (mysql o) =
    if is_some o.parallel_threads then some mydumper_not_implemented else none
check_mydumper _ = none

-- The two checks of a request for an encrypted artifact.
unfoldable pub check_encrypt : Bool → EngineBackupOptions → Option BackupError
check_encrypt true (postgres o) =
    if is_plain o.format then none else some (encrypt_needs_plain o.format)
check_encrypt true (mysql o) =
    if is_some o.parallel_threads then some encrypt_needs_stream else none
check_encrypt _ _ = none

abbrev pub has_filter : TableSelection → Bool
has_filter s = is_some s.where_filter

abbrev pub filter_is_idle : TableSelection → Bool
filter_is_idle s = has_filter s && not (s.mode == schema_and_data)

abbrev pub is_structure_only : TableSelection → Bool
is_structure_only s = s.mode == schema_only

-- The error about the first selection that a test finds.
abbrev pub reject :
    (TableSelection → Bool) → (Text → BackupError) → List TableSelection → Option BackupError
reject test error selections = elim (find test selections) [
  | none ↦ none
  | some s ↦ some (error s.name)
]

unfoldable pub check_filters : List TableSelection → Option BackupError
check_filters selections = reject filter_is_idle filter_without_data selections

unfoldable pub check_mongo : EngineBackupOptions → List TableSelection → Option BackupError
check_mongo (mongo o) selections =
    reject is_structure_only mongo_structure_only selections
    then_check reject has_filter mongo_filter selections
check_mongo _ _ = none

-- `BackupRequest::validate`; `none` is `Ok(())`.
unfoldable pub validate : BackupRequest → ConnectionProfile → Option BackupError
unfolding check_engine check_common check_parallel check_mydumper check_encrypt check_filters
    check_mongo
validate r profile =
    check_engine r profile
    then_check check_common r.common
    then_check check_parallel r.engine
    then_check check_mydumper r.engine
    then_check check_encrypt r.common.encrypt r.engine
    then_check check_filters r.common.selections
    then_check check_mongo r.engine r.common.selections
