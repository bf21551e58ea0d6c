-- ===== src/Plan.antt =====
-- engine/src/plan.rs: a saved set of tables, how it is completed for the tables of a source, and
-- the older file of table names.
pub mod Expansion
mod Examples
use mysql_ssh_db_sync.Prelude.{
  ℕ, Bool, true, false, not, ◌&&◌, ◌||◌, Option, none, some, List, [], ◌∷◌, map, Text, text,
  nat_beq, if◌then◌else◌, filter, any, find, contains, is_empty, lines, trim, starts_with,
  strip_prefix, split_whitespace, flat_map, ◌==◌, list_eq, nat_eq,
}
use mysql_ssh_db_sync.Backup.{
  TableSelection, TableMode, schema_and_data, schema_only, exclude, structure_of, with_data,
  mode_eq,
}
use mysql_ssh_db_sync.Mask.{MaskRule}

pub record SyncPlan : Type 0 where
  pub id : ℕ
  pub profile_id : ℕ
  pub name : Text
  pub database : Text
  pub selections : List TableSelection
  pub masking : List MaskRule
  pub revision : ℕ
  pub created_at : ℕ
  pub updated_at : ℕ

abbrev pub names_with_mode : TableMode → SyncPlan → List Text
names_with_mode mode p = map (λ s. s.name) (filter (λ s. s.mode == mode) p.selections)

unfoldable pub data_tables : SyncPlan → List Text
data_tables p = names_with_mode schema_and_data p

unfoldable pub schema_only_tables : SyncPlan → List Text
schema_only_tables p = names_with_mode schema_only p

unfoldable pub active_masking : SyncPlan → List MaskRule
unfolding data_tables
active_masking p = filter (λ r. contains (data_tables p) r.table) p.masking

unfoldable pub missing_from : SyncPlan → List Text → List Text
missing_from p available =
    filter (λ name. not (contains available name))
      (map (λ s. s.name) (filter (λ s. not (s.mode == exclude)) p.selections))

unfoldable pub unlisted_in : SyncPlan → List Text → List Text
unlisted_in p available = filter (λ name. not (any (λ s. s.name == name) p.selections)) available

-- `available.strip_prefix("public.") == Some(saved)`.
abbrev pub is_some_of : Option Text → Text → Bool
is_some_of none saved = false
is_some_of (some rest) saved = rest == saved

unfoldable pub names_same_table : Text → Text → Bool
unfolding strip_prefix
names_same_table saved available =
    saved == available || is_some_of (strip_prefix (text "public.") available) saved

-- The saved entry, or one that takes the table with its data.
abbrev pub or_with_data : Text → Option TableSelection → TableSelection
or_with_data name none = with_data name
or_with_data name (some s) = s

abbrev pub selection_for : List TableSelection → Text → TableSelection
selection_for selections name =
    or_with_data name (find (λ s. names_same_table s.name name) selections)

unfoldable pub expand_selections : List TableSelection → List Text → List TableSelection
unfolding names_same_table
expand_selections selections available = map (selection_for selections) available

unfoldable pub expand_for : SyncPlan → List Text → List TableSelection
unfolding expand_selections
expand_for p available = expand_selections p.selections available

-- The first word of a line that is no comment.
abbrev pub first_word : List Text → List Text
first_word [] = []
first_word (word ∷ words) = word ∷ []

abbrev pub names_on_line : Text → List Text
names_on_line line =
    let line = trim line in
    if is_empty line || starts_with (text "#") line then [] else first_word (split_whitespace line)

-- The names that were not seen before.
abbrev pub unseen : List Text → List Text → List Text
unseen seen [] = []
unseen seen (name ∷ names) =
    let rest = unseen (name ∷ seen) names in
    if contains seen name then unseen seen names else name ∷ rest

unfoldable pub parse_tables_conf : Text → List TableSelection
unfolding lines split_whitespace trim
parse_tables_conf contents = map with_data (unseen [] (flat_map names_on_line (lines contents)))

unfoldable pub selections_from_tables_conf : Text → List Text → List TableSelection
unfolding parse_tables_conf names_same_table
selections_from_tables_conf contents available =
    let listed = parse_tables_conf contents in
    map
      (λ name.
        if any (λ s. names_same_table s.name name) listed
        then with_data name
        else structure_of name)
      available
