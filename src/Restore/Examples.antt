-- ===== src/Restore/Examples.antt =====
-- Restores of one artifact (engine/src/restore/mod.rs): the names, and the typed confirmation.
use mysql_ssh_db_sync.Prelude.{
  ℕ, ◌≡◌, ◌↔◌, refl, true, false, Option, none, some, [], ◌∷◌, Text, text, list_beq, nat_eq,
  list_eq,
}
use mysql_ssh_db_sync.Types.{
  ConnectionProfile, prod, requires_typed_confirmation, supports_selective_restore,
}
use mysql_ssh_db_sync.Types
use mysql_ssh_db_sync.Restore.{
  new_timestamped, drop_and_recreate, naming_window_secs, resolve, find_free, resolve_free, mysql,
  RestoreRequest, confirmation_required, validate, check_engines, check_confirmation,
  check_postgres, check_mongo,
}
use mysql_ssh_db_sync.Restore.Names.{FirstFree, resolve_free-FirstFree}
use mysql_ssh_db_sync.Restore.Laws.{IsAllowed, validate-IsAllowed}

-- A clock that prints an instant as one character.
abbrev one_character : ℕ → Text
one_character now = now ∷ []

second_name :
    resolve_free one_character (new_timestamped (text "shop")) 65 (text "shop_A" ∷ [])
    ≡ some (text "shop_B")
unfolding resolve_free find_free resolve list_beq
second_name = refl

resolve_free-FirstFree_example :
    FirstFree one_character
      (new_timestamped (text "shop"))
      (text "shop_A" ∷ [])
      65
      naming_window_secs
      (resolve_free one_character (new_timestamped (text "shop")) 65 (text "shop_A" ∷ []))
resolve_free-FirstFree_example =
    resolve_free-FirstFree one_character (text "shop") 65 (text "shop_A" ∷ [])

abbrev server : ConnectionProfile
server = record {
  id = 1;
  name = text "shop";
  engine = Types.mysql;
  environment = prod;
  ssh_connection_id = none;
  db = record { host = text "localhost"; port = 3306; user = text "root"; database = none };
  tool_overrides = record {
    mysqldump = none;
    mysql = none;
    mydumper = none;
    myloader = none;
    pg_dump = none;
    pg_dumpall = none;
    pg_restore = none;
    psql = none;
    mongodump = none;
    mongorestore = none;
  };
  created_at = 0;
  updated_at = 0;
}

abbrev replace_shop : Option Text → RestoreRequest
replace_shop typed = record {
  artifact_path = text "/backups/shop.sql.gz";
  naming = drop_and_recreate (text "shop");
  engine = mysql (record {
    foreign_key_checks_off = true;
    unique_checks_off = true;
    autocommit_off = true;
    disable_binlog = false;
    charset = text "utf8mb4";
    collation = text "utf8mb4_0900_ai_ci";
  });
  verify_checksum = true;
  typed_confirmation = typed;
}

unconfirmed_refused :
    validate one_character (replace_shop none) server none 0
    ≡ some (confirmation_required (text "shop") none)
unfolding validate check_engines check_confirmation check_postgres check_mongo resolve
unconfirmed_refused = refl

validate-IsAllowed_example :
    (validate one_character (replace_shop (some (text "shop"))) server none 0 ≡ none)
    ↔ IsAllowed (replace_shop (some (text "shop"))) server none
validate-IsAllowed_example =
    validate-IsAllowed one_character (replace_shop (some (text "shop"))) server none 0
