-- ===== src/Mask/Examples.antt =====
-- Two rules for a table that is copied, and one for a table that is not (engine/src/mask/mod.rs).
use mysql_ssh_db_sync.Prelude.{Option, some, List, [], ◌∷◌, Text, text, nat_eq, list_eq}
use mysql_ssh_db_sync.Mask.{MaskRule, email, null, MaskingCoverage}

abbrev rules : List MaskRule
rules =
    record { table = text "users"; column = text "email"; transform = email }
    ∷ record { table = text "logs"; column = text "ip"; transform = null }
    ∷ []

abbrev columns_of : Text → Option (List Text)
columns_of table = some (text "id" ∷ text "email" ∷ [])

abbrev covered : MaskingCoverage
covered = record {
  effective = record { table = text "users"; column = text "email"; transform = email } ∷ [];
  inert =
      record {
        rule = record { table = text "logs"; column = text "ip"; transform = null };
        reason =
            text
              "logs is not in this plan as a table carrying data, so no rows reach the destination to mask";
      }
      ∷ [];
}
