-- ===== src/Restore.antt =====
-- engine/src/restore/mod.rs: where a restore writes, its options, and the check of a request.
--
-- How chrono prints an instant as `%Y%m%d_%H%M%S` is a parameter, `stamp`. An instant is a number of
-- seconds here, as the names have that resolution.
pub mod Names
pub mod Laws
mod Examples
use mysql_ssh_db_sync.Prelude.{
  ℕ, zero, suc, ◌+◌, Bool, true, false, not, ◌&&◌, ◌||◌, Option, none, some, List, [], ◌∷◌, ◌++◌,
  Text, text, if◌then◌else◌, is_some, is_none, is_empty, is_blank, any, contains, nat_beq, ◌==◌,
  PartialEq, list_eq, nat_eq, ◌≡◌, arith,
}
use mysql_ssh_db_sync.Types.{
  Engine, EnvironmentTag, ArtifactFormat, ConnectionProfile, BackupManifest, engine_eq,
  requires_typed_confirmation, supports_selective_restore,
}

pub data TargetNaming : Type 0 where
  new_timestamped : Text → TargetNaming
  drop_and_recreate : Text → TargetNaming
  into_existing : Text → TargetNaming

abbrev pub is_destructive : TargetNaming → Bool
is_destructive (drop_and_recreate name) = true
is_destructive _ = false

abbrev pub is_timestamped : TargetNaming → Bool
is_timestamped (new_timestamped prefix) = true
is_timestamped _ = false

abbrev pub naming_window_secs : ℕ
naming_window_secs = 60

module _ (stamp : ℕ → Text) where
  unfoldable pub resolve : TargetNaming → ℕ → Text
  resolve (new_timestamped prefix) now = prefix ++ (text "_" ++ stamp now)
  resolve (drop_and_recreate name) now = name
  resolve (into_existing name) now = name

  -- The first of the names of `left` seconds from `now` that is not taken.
  unfoldable pub find_free : TargetNaming → ℕ → List Text → ℕ → Option Text
  unfolding resolve
  find_free naming now taken zero = none
  find_free naming now taken (suc left) =
      let rest = find_free naming (now + 1) taken left in
      if contains taken (resolve naming now) then rest else some (resolve naming now)

  unfoldable pub resolve_free : TargetNaming → ℕ → List Text → Option Text
  unfolding find_free
  resolve_free naming now taken =
      if not (is_timestamped naming)
      then some (resolve naming now)
      else find_free naming now taken naming_window_secs

pub record MysqlRestoreOptions : Type 0 where
  pub foreign_key_checks_off : Bool
  pub unique_checks_off : Bool
  pub autocommit_off : Bool
  pub disable_binlog : Bool
  pub charset : Text
  pub collation : Text

pub record PostgresRestoreOptions : Type 0 where
  pub no_owner : Bool
  pub no_privileges : Bool
  pub parallel_jobs : Option ℕ
  pub only_tables : List Text
  pub clean : Bool

pub record MongoRestoreOptions : Type 0 where
  pub drop_collections : Bool
  pub only_collections : List Text
  pub parallel_collections : Option ℕ
  pub insertion_workers : Option ℕ
  pub stop_on_error : Bool
  pub restore_indexes : Bool
  pub bypass_document_validation : Bool

pub data EngineRestoreOptions : Type 0 where
  mysql : MysqlRestoreOptions → EngineRestoreOptions
  postgres : PostgresRestoreOptions → EngineRestoreOptions
  mongo : MongoRestoreOptions → EngineRestoreOptions

abbrev pub engine_of : EngineRestoreOptions → Engine
engine_of (mysql o) = Engine.mysql
engine_of (postgres o) = Engine.postgres
engine_of (mongo o) = Engine.mongo

pub record RestoreRequest : Type 0 where
  pub artifact_path : Text
  pub naming : TargetNaming
  pub engine : EngineRestoreOptions
  pub verify_checksum : Bool
  pub typed_confirmation : Option Text

-- `Invalid` carries a message in the code; here it carries what the message says.
pub data RestoreError : Type 0 where
  engine_mismatch : Engine → Engine → RestoreError
  artifact_engine_mismatch : Engine → Engine → RestoreError
  confirmation_required : Text → Option Text → RestoreError
  selective_restore_unsupported : ArtifactFormat → RestoreError
  parallel_restore_unsupported : ArtifactFormat → RestoreError
  no_parallel_jobs : RestoreError
  no_parallel_collections : RestoreError
  no_insertion_workers : RestoreError
  blank_collection : RestoreError

infixr 5 ◌then_check◌
abbrev pub ◌then_check◌ : Option RestoreError → Option RestoreError → Option RestoreError
none then_check rest = rest
some e then_check rest = some e

unfoldable pub check_engines :
    RestoreRequest → ConnectionProfile → Option BackupManifest → Option RestoreError
check_engines r profile manifest =
    if not (profile.engine == engine_of r.engine)
    then some (engine_mismatch profile.engine (engine_of r.engine))
    else elim manifest [
      | none ↦ none
      | some m ↦
          if m.engine == profile.engine
          then none
          else some (artifact_engine_mismatch m.engine profile.engine)
    ]

abbrev pub needs_confirmation : TargetNaming → EnvironmentTag → Bool
needs_confirmation naming environment =
    is_destructive naming
    || (requires_typed_confirmation environment && not (is_timestamped naming))

-- `typed.as_deref() != Some(expected)`.
abbrev pub is_typed : Option Text → Text → Bool
is_typed none expected = false
is_typed (some typed) expected = typed == expected

unfoldable pub check_confirmation :
    (ℕ → Text) → RestoreRequest → ConnectionProfile → ℕ → Option RestoreError
unfolding resolve requires_typed_confirmation
check_confirmation stamp r profile now =
    if needs_confirmation r.naming profile.environment
      && not (is_typed r.typed_confirmation (resolve stamp r.naming now))
    then some (confirmation_required (resolve stamp r.naming now) r.typed_confirmation)
    else none

-- Whether a known format rules the part of an artifact out.
abbrev pub lacks_selection : Option BackupManifest → Option ArtifactFormat
lacks_selection none = none
lacks_selection (some m) = if supports_selective_restore m.format then none else some m.format

unfoldable pub check_only_tables : List Text → Option ArtifactFormat → Option RestoreError
check_only_tables only_tables none = none
check_only_tables only_tables (some f) =
    if is_empty only_tables then none else some (selective_restore_unsupported f)

unfoldable pub check_jobs : Option ℕ → Option ArtifactFormat → Option RestoreError
check_jobs none format = none
check_jobs (some jobs) none = if nat_beq jobs 0 then some no_parallel_jobs else none
check_jobs (some jobs) (some f) =
    if nat_beq jobs 0 then some no_parallel_jobs else some (parallel_restore_unsupported f)

unfoldable pub check_postgres : EngineRestoreOptions → Option BackupManifest → Option RestoreError
unfolding supports_selective_restore check_only_tables check_jobs
check_postgres (postgres o) manifest =
    check_only_tables o.only_tables (lacks_selection manifest)
    then_check check_jobs o.parallel_jobs (lacks_selection manifest)
check_postgres _ manifest = none

abbrev pub is_zero : Option ℕ → Bool
is_zero none = false
is_zero (some n) = nat_beq n 0

unfoldable pub check_mongo : EngineRestoreOptions → Option RestoreError
check_mongo (mongo o) =
    if is_zero o.parallel_collections
    then some no_parallel_collections
    else if is_zero o.insertion_workers
    then some no_insertion_workers
    else if any is_blank o.only_collections
    then some blank_collection
    else none
check_mongo _ = none

-- `RestoreRequest::validate` at the instant `now`; `none` is `Ok(())`.
unfoldable pub validate :
    (ℕ → Text)
    → RestoreRequest
    → ConnectionProfile
    → Option BackupManifest
    → ℕ
    → Option RestoreError
unfolding check_engines check_confirmation check_postgres check_mongo
validate stamp r profile manifest now =
    check_engines r profile manifest
    then_check check_confirmation stamp r profile now
    then_check check_postgres r.engine manifest
    then_check check_mongo r.engine
