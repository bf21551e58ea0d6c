-- ===== src/Mask/Updates.antt =====
-- engine/src/mask/mod.rs: one statement per table, with the values that it binds.
use mysql_ssh_db_sync.Prelude.{
  ℕ, ◌+◌, List, [], ◌∷◌, ◌++◌, Text, text, map, length, join, Result, ok, ◌>>=◌,
}
use mysql_ssh_db_sync.Types.{Engine}
use mysql_ssh_db_sync.Mask.{MaskTransform, MaskRule}
use mysql_ssh_db_sync.Mask.Statements.{
  SqlDialect, StatementError, dialect_of, quote_table, quote_column, Bound, set_expr,
  violation_expr, projection, TableStatement, TableCheck, by_table,
}

-- The text of one rule for a quoted column, from the next placeholder's number.
abbrev pub Render : Type 0
Render = Text → MaskTransform → ℕ → Bound

module _ (d : SqlDialect) where
  abbrev pub assignment : Text → Render
  assignment salt col transform n =
      let (expr, binds) = set_expr d col transform salt n in (col ++ (text " = " ++ expr), binds)

  abbrev pub checked : Render
  checked col transform n =
      let (violation, binds) = violation_expr d col transform n in (projection d violation, binds)

  -- The loop over the rules of a table. A placeholder is taken for each value that is bound.
  unfoldable pub render_rules :
      Render → ℕ → List MaskRule → Result StatementError (List Text × List Text)
  render_rules render n [] = ok ([], [])
  render_rules render n (r ∷ rules) = do
    col ← quote_column d r.column
    let (shown, binds) = render col r.transform n
    (texts, more) ← render_rules render (n + length binds) rules
    ok (shown ∷ texts, binds ++ more)

  abbrev pub update_statement : Text → Text × List MaskRule → Result StatementError TableStatement
  update_statement salt (table, rules) = do
    quoted_table ← quote_table d table
    (assignments, binds) ← render_rules (assignment salt) 1 rules
    ok (record {
      table = table;
      statement = record {
        sql = text "UPDATE " ++ quoted_table ++ text " SET " ++ join (text ", ") assignments;
        binds = binds;
      };
    })

  abbrev pub check_statement : Text × List MaskRule → Result StatementError TableCheck
  check_statement (table, rules) = do
    quoted_table ← quote_table d table
    (projections, binds) ← render_rules checked 1 rules
    ok (record {
      table = table;
      statement = record {
        sql = text "SELECT " ++ join (text ", ") projections ++ text " FROM " ++ quoted_table;
        binds = binds;
      };
      columns = map (λ r. r.column) rules;
      transforms = map (λ r. r.transform) rules;
    })

-- The loop over the tables.
unfoldable pub each_table :
    {A B : Type 0} → (A → Result StatementError B) → List A → Result StatementError (List B)
each_table f [] = ok []
each_table f (a ∷ as') = do b ← f a; bs ← each_table f as'; ok (b ∷ bs)

unfoldable pub update_statements :
    Engine → List MaskRule → Text → Result StatementError (List TableStatement)
unfolding render_rules each_table dialect_of
update_statements engine rules salt =
    dialect_of engine >>= λ d. each_table (update_statement d salt) (by_table rules)

unfoldable pub check_statements : Engine → List MaskRule → Result StatementError (List TableCheck)
unfolding render_rules each_table dialect_of
check_statements engine rules =
    dialect_of engine >>= λ d. each_table (check_statement d) (by_table rules)
