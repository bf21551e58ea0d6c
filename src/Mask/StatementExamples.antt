-- ===== src/Mask/StatementExamples.antt =====
-- Names that try to leave their quotes (engine/src/mask/mod.rs).
use mysql_ssh_db_sync.Prelude.{
  ◌≡◌, refl, some, List, [], ◌∷◌, text, ok, All, text_leb, list_beq, dedup, sort, join,
}
use mysql_ssh_db_sync.Types as Types
use mysql_ssh_db_sync.Mask.{MaskRule, hash, constant}
use mysql_ssh_db_sync.Mask.Statements.{
  postgres, dialect_of, quote_table, quote_column, set_expr, violation_expr, TableStatement,
  TableCheck,
}
use mysql_ssh_db_sync.Mask.Updates.{update_statements, check_statements}
use mysql_ssh_db_sync.Mask.Placeholders.{IsBalanced, statements-IsBalanced}

abbrev rules : List MaskRule
rules =
    record { table = text "users"; column = text "a\"$9"; transform = constant (text "x") }
    ∷ record { table = text "users"; column = text "b"; transform = hash (some 16) }
    ∷ []

abbrev updates : List TableStatement
updates =
    record {
      table = text "users";
      statement = record {
        sql =
            text
              "UPDATE \"public\".\"users\" SET \"a\"\"$9\" = $1, \"b\" = left(encode(sha256(convert_to($2 || \"b\"::text, 'UTF8')), 'hex'), 16)";
        binds = text "x" ∷ text "salt" ∷ [];
      };
    }
    ∷ []

abbrev checks : List TableCheck
checks =
    record {
      table = text "users";
      statement = record {
        sql =
            text
              "SELECT COALESCE(SUM(CASE WHEN \"a\"\"$9\" IS NULL OR \"a\"\"$9\"::text <> $1 THEN 1 ELSE 0 END), 0)::bigint, COALESCE(SUM(CASE WHEN \"b\" IS NOT NULL AND (length(\"b\"::text) <> 16 OR \"b\"::text !~ '^[0-9a-f]+$') THEN 1 ELSE 0 END), 0)::bigint FROM \"public\".\"users\"";
        binds = text "x" ∷ [];
      };
      columns = text "a\"$9" ∷ text "b" ∷ [];
      transforms = constant (text "x") ∷ hash (some 16) ∷ [];
    }
    ∷ []

updated : update_statements Types.postgres rules (text "salt") ≡ ok updates
unfolding update_statements text_leb list_beq dedup sort join quote_table quote_column set_expr
updated = refl

checked : check_statements Types.postgres rules ≡ ok checks
unfolding check_statements text_leb list_beq dedup sort join quote_table quote_column violation_expr
checked = refl

statements-IsBalanced_example :
    All (λ u. IsBalanced postgres u.statement) updates
    × All (λ c. IsBalanced postgres c.statement) checks
statements-IsBalanced_example =
    statements-IsBalanced Types.postgres postgres rules (text "salt") updates checks
      (unfold dialect_of in refl) updated checked
