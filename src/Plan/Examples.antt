-- ===== src/Plan/Examples.antt =====
-- A set that was imported from a file of bare names, on a PostgreSQL source (engine/src/plan.rs).
use mysql_ssh_db_sync.Prelude.{
  ◌≡◌, list_eq, nat_eq, refl, none, List, [], ◌∷◌, Text, text, list_beq,
}
use mysql_ssh_db_sync.Backup.{TableSelection, exclude, structure_of, with_data}
use mysql_ssh_db_sync.Plan.{SyncPlan, missing_from, expand_selections, selections_from_tables_conf}

abbrev available : List Text
available = text "public.orders" ∷ text "public.users" ∷ text "archive.orders" ∷ []

abbrev saved : List TableSelection
saved = record { name = text "orders"; mode = exclude; where_filter = none } ∷ []

expanded :
    expand_selections saved available
    ≡ record { name = text "orders"; mode = exclude; where_filter = none }
      ∷ with_data (text "public.users")
      ∷ with_data (text "archive.orders")
      ∷ []
unfolding expand_selections list_beq
expanded = refl

abbrev conf : Text
conf = text "# nightly\norders  500\n\nusers\norders\n"

conf_read :
    selections_from_tables_conf conf available
    ≡ with_data (text "public.orders")
      ∷ with_data (text "public.users")
      ∷ structure_of (text "archive.orders")
      ∷ []
unfolding selections_from_tables_conf list_beq
conf_read = refl

abbrev imported : SyncPlan
imported = record {
  id = 1;
  profile_id = 2;
  name = text "nightly";
  database = text "app";
  selections = with_data (text "orders") ∷ [];
  masking = [];
  revision = 1;
  created_at = 0;
  updated_at = 0;
}

-- The table is there, and its data is taken, yet it is reported as missing.
reported_missing : missing_from imported available ≡ text "orders" ∷ []
unfolding missing_from list_beq
reported_missing = refl
