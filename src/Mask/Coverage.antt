-- ===== src/Mask/Coverage.antt =====
-- What the plan of a masking covers (engine/src/mask/mod.rs, `plan_coverage`).
use mysql_ssh_db_sync.Prelude.{
  ◌≡◌, Bool, true, false, not, Option, some, List, [], ◌∷◌, Text, map, filter, contains, list_eq,
  nat_eq, All,
}
use mysql_ssh_db_sync.Types.{Engine}
use mysql_ssh_db_sync.Mask.Columns.{HasColumn}
use mysql_ssh_db_sync.Mask.{MaskRule, MaskingCoverage, is_repeated, wanted}

module _ (engine : Engine) (tables_with_data : List Text)
    (source_columns : Text → Option (List Text)) where
  -- Rows of the rule's table reach the destination.
  abbrev pub carries : MaskRule → Bool
  carries r = contains tables_with_data r.table

  -- The source has the column that the check looks for.
  abbrev pub KnownColumn : MaskRule → Type 0
  KnownColumn r =
      (columns : List Text) × (source_columns r.table ≡ some columns)
      × (contains columns (wanted engine r) ≡ true)

  -- No rule is for a column that an earlier one is for.
  abbrev pub Unrepeated : List (Text × Text) → List MaskRule → Type 0
  Unrepeated seen [] = Unit
  Unrepeated seen (r ∷ rules) =
      (is_repeated seen r ≡ false) × Unrepeated ((r.table, r.column) ∷ seen) rules

  -- The rules that run are those whose table carries rows, in their order; the others are set aside,
  -- in theirs; and each rule that runs has the column that the check looks for.
  abbrev pub Sorts : List MaskRule → MaskingCoverage → Type 0
  Sorts rules c =
      (c.effective ≡ filter carries rules)
      × (map (λ i. i.rule) c.inert ≡ filter (λ r. not (carries r)) rules)
      × All KnownColumn c.effective

module _ (engine : Engine) (tables_with_data : List Text)
    (source_columns : Text → Option (List Text)) where
  -- The source lists the columns of the rule's table, and has the rule's.
  abbrev pub IsChecked : MaskRule → Type 0
  IsChecked r =
      (columns : List Text) × (source_columns r.table ≡ some columns)
      × HasColumn engine columns r.column

  -- The rules that run are those whose table carries rows, in their order; the others are set aside,
  -- in theirs; and each rule that runs was checked.
  abbrev pub Covers : List MaskRule → MaskingCoverage → Type 0
  Covers rules c =
      (c.effective ≡ filter (λ r. contains tables_with_data r.table) rules)
      × (map (λ i. i.rule) c.inert ≡ filter (λ r. not (contains tables_with_data r.table)) rules)
      × All IsChecked c.effective
