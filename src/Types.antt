-- ===== src/Types.antt =====
-- engine/src/types.rs: the supported engines and the environments; engine/src/manifest.rs: the
-- formats of an artifact.
use mysql_ssh_db_sync.Prelude.{ℕ, Bool, true, false, ◌≡◌, PartialEq, arith, Option, List, Text}

pub data Engine : Type 0 where
  mysql postgres mongo : Engine

pub data EnvironmentTag : Type 0 where
  prod staging dev : EnvironmentTag

unfoldable pub requires_typed_confirmation : EnvironmentTag → Bool
requires_typed_confirmation prod = true
requires_typed_confirmation _ = false

unfoldable pub is_relational : Engine → Bool
is_relational mongo = false
is_relational _ = true

pub data ArtifactFormat : Type 0 where
  sql_gz pg_custom pg_directory mydumper_dir mongo_archive : ArtifactFormat

unfoldable pub supports_selective_restore : ArtifactFormat → Bool
supports_selective_restore pg_custom = true
supports_selective_restore pg_directory = true
supports_selective_restore mongo_archive = true
supports_selective_restore _ = false

unfoldable pub is_directory : ArtifactFormat → Bool
is_directory pg_directory = true
is_directory mydumper_dir = true
is_directory _ = false

abbrev pub engine_beq : Engine → Engine → Bool
engine_beq mysql mysql = true
engine_beq postgres postgres = true
engine_beq mongo mongo = true
engine_beq _ _ = false

pub engine_beq→eq : (a b : Engine) → engine_beq a b ≡ true → a ≡ b
engine_beq→eq a b h = ground arith

pub engine_beq_self : (a : Engine) → engine_beq a a ≡ true
engine_beq_self a = ground arith

instance abbrev pub engine_eq : PartialEq Engine
engine_eq = record { test = engine_beq; sound = engine_beq→eq; accepts_self = engine_beq_self }

-- engine/src/profile.rs. An id is a number, and so is an instant.
pub record DbConfig : Type 0 where
  pub host : Text
  pub port : ℕ
  pub user : Text
  pub database : Option Text

pub record ToolOverrides : Type 0 where
  pub mysqldump : Option Text
  pub mysql : Option Text
  pub mydumper : Option Text
  pub myloader : Option Text
  pub pg_dump : Option Text
  pub pg_dumpall : Option Text
  pub pg_restore : Option Text
  pub psql : Option Text
  pub mongodump : Option Text
  pub mongorestore : Option Text

pub record ConnectionProfile : Type 0 where
  pub id : ℕ
  pub name : Text
  pub engine : Engine
  pub environment : EnvironmentTag
  pub ssh_connection_id : Option ℕ
  pub db : DbConfig
  pub tool_overrides : ToolOverrides
  pub created_at : ℕ
  pub updated_at : ℕ

-- engine/src/manifest.rs. The options of the job are opaque in the code too, as JSON text.
pub record BackupManifest : Type 0 where
  pub manifest_version : ℕ
  pub id : ℕ
  pub source_profile_id : ℕ
  pub source_profile_name : Text
  pub engine : Engine
  pub server_version : Text
  pub dump_tool : Text
  pub dump_tool_version : Text
  pub database : Text
  pub created_at : ℕ
  pub format : ArtifactFormat
  pub tables : List Text
  pub tables_with_data : List Text
  pub source_row_counts : List (Text × ℕ)
  pub options : Text
  pub artifact_filename : Text
  pub size_bytes : ℕ
  pub sha256 : Text
  pub encrypted : Bool
  pub encryption_recipients : List Text
