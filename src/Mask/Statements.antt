-- ===== src/Mask/Statements.antt =====
-- engine/src/mask/mod.rs: the statements that mask a destination and those that check it, with the
-- quoting of names of engine/src/db.rs.
use mysql_ssh_db_sync.Prelude.{
  ℕ, Option, none, some, List, [], ◌∷◌, ◌++◌, Text, text, map, filter, sort, text_leb, dedup,
  contains, if◌then◌else◌, split_once, replace, decimal, ◌==◌, list_eq, nat_eq, Result, ok, err,
  ◌>>=◌,
}
use mysql_ssh_db_sync.Types as Types
use mysql_ssh_db_sync.Types.{Engine}
use mysql_ssh_db_sync.Mask.{MaskTransform, MaskRule, hash, email, phone, null, constant}

pub data SqlDialect : Type 0 where
  mysql postgres : SqlDialect

pub data StatementError : Type 0 where
  not_sql : Engine → StatementError
  invalid_identifier : StatementError

-- `SqlDialect::of`.
unfoldable pub dialect_of : Engine → Result StatementError SqlDialect
dialect_of Types.mysql = ok mysql
dialect_of Types.postgres = ok postgres
dialect_of Types.mongo = err (not_sql Types.mongo)

-- A name between quotes, with each quote in it doubled.
unfoldable pub quoted : ℕ → Text → Text
unfolding replace
quoted q ident = q ∷ replace (q ∷ []) (q ∷ q ∷ []) 0 ident ++ (q ∷ [])

unfoldable pub quote_mysql_ident : Text → Result StatementError Text
unfolding quoted
quote_mysql_ident ident = if contains ident 0 then err invalid_identifier else ok (quoted 96 ident)

unfoldable pub quote_pg_ident : Text → Result StatementError Text
unfolding quoted
quote_pg_ident ident = if contains ident 0 then err invalid_identifier else ok (quoted 34 ident)

abbrev pub qualified : Text → Text → Result StatementError Text
qualified schema table = do
  schema' ← quote_pg_ident schema
  table' ← quote_pg_ident table
  ok (schema' ++ (text "." ++ table'))

abbrev pub quote_parts : Text → Option (Text × Text) → Result StatementError Text
quote_parts name (some (schema, table)) = qualified schema table
quote_parts name none = qualified (text "public") name

unfoldable pub quote_table : SqlDialect → Text → Result StatementError Text
unfolding quote_mysql_ident quote_pg_ident split_once
quote_table mysql name = quote_mysql_ident name
quote_table postgres name = quote_parts name (split_once 46 name)

unfoldable pub quote_column : SqlDialect → Text → Result StatementError Text
unfolding quote_mysql_ident quote_pg_ident
quote_column mysql name = quote_mysql_ident name
quote_column postgres name = quote_pg_ident name

abbrev pub as_text : SqlDialect → Text → Text
as_text mysql col = text "CAST(" ++ col ++ text " AS CHAR)"
as_text postgres col = col ++ text "::text"

-- `Placeholders::take`, of the next number.
unfoldable pub placeholder : SqlDialect → ℕ → Text
unfolding decimal
placeholder mysql n = text "?"
placeholder postgres n = text "$" ++ decimal n

-- The digest, with the placeholder of the salt.
abbrev pub digest_expr : SqlDialect → Text → Text → Text
digest_expr mysql col p = text "SHA2(CONCAT(" ++ p ++ text ", " ++ col ++ text "), 256)"
digest_expr postgres col p =
    text "encode(sha256(convert_to(" ++ p ++ text " || " ++ col ++ text "::text, 'UTF8')), 'hex')"

abbrev pub hash_length : Option ℕ → ℕ
hash_length none = 64
hash_length (some n) = n

-- A text, with what it binds.
abbrev pub Bound : Type 0
Bound = Text × List Text

abbrev pub hash_set : SqlDialect → Text → ℕ → Text
hash_set mysql digest len = text "LEFT(" ++ digest ++ text ", " ++ decimal len ++ text ")"
hash_set postgres digest len = text "left(" ++ digest ++ text ", " ++ decimal len ++ text ")"

abbrev pub email_set : SqlDialect → Text → Text
email_set mysql digest = text "CONCAT(LEFT(" ++ digest ++ text ", 16), '@example.invalid')"
email_set postgres digest = text "left(" ++ digest ++ text ", 16) || '@example.invalid'"

abbrev pub phone_set : SqlDialect → Text → Text
phone_set mysql digest =
    text "CONCAT('+1555', LPAD(CONV(LEFT(" ++ digest ++ text ", 7), 16, 10) % 10000000, 7, '0'))"
phone_set postgres digest =
    text "'+1555' || lpad(((('x' || left("
    ++ digest
    ++ text ", 7))::bit(28)::bigint) % 10000000)::text, 7, '0')"

-- The expression of a rule, where `n` is the number of the next placeholder.
unfoldable pub set_expr : SqlDialect → Text → MaskTransform → Text → ℕ → Bound
unfolding placeholder
set_expr d col (hash length) salt n =
    (hash_set d (digest_expr d col (placeholder d n)) (hash_length length), salt ∷ [])
set_expr d col email salt n = (email_set d (digest_expr d col (placeholder d n)), salt ∷ [])
set_expr d col phone salt n = (phone_set d (digest_expr d col (placeholder d n)), salt ∷ [])
set_expr d col null salt n = (text "NULL", [])
set_expr d col (constant value) salt n = (placeholder d n, value ∷ [])

abbrev pub hash_violation : SqlDialect → Text → Text → ℕ → Text
hash_violation mysql col shown len =
    col
    ++ text " IS NOT NULL AND (CHAR_LENGTH("
    ++ shown
    ++ text ") <> "
    ++ decimal len
    ++ text " OR "
    ++ shown
    ++ text " NOT REGEXP '^[0-9a-f]+$')"
hash_violation postgres col shown len =
    col
    ++ text " IS NOT NULL AND (length("
    ++ shown
    ++ text ") <> "
    ++ decimal len
    ++ text " OR "
    ++ shown
    ++ text " !~ '^[0-9a-f]+$')"

unfoldable pub violation_expr : SqlDialect → Text → MaskTransform → ℕ → Bound
unfolding placeholder
violation_expr d col (hash length) n =
    (hash_violation d col (as_text d col) (hash_length length), [])
violation_expr d col email n =
    (col ++ text " IS NOT NULL AND " ++ as_text d col ++ text " NOT LIKE '%@example.invalid'", [])
violation_expr d col phone n =
    (col ++ text " IS NOT NULL AND " ++ as_text d col ++ text " NOT LIKE '+1555%'", [])
violation_expr d col null n = (col ++ text " IS NOT NULL", [])
violation_expr d col (constant value) n =
    (col ++ text " IS NULL OR " ++ as_text d col ++ text " <> " ++ placeholder d n, value ∷ [])

abbrev pub projection : SqlDialect → Text → Text
projection mysql violation =
    text "CAST(COALESCE(SUM(CASE WHEN " ++ violation ++ text " THEN 1 ELSE 0 END), 0) AS SIGNED)"
projection postgres violation =
    text "COALESCE(SUM(CASE WHEN " ++ violation ++ text " THEN 1 ELSE 0 END), 0)::bigint"

pub record Statement : Type 0 where
  pub sql : Text
  pub binds : List Text

pub record TableStatement : Type 0 where
  pub table : Text
  pub statement : Statement

pub record TableCheck : Type 0 where
  pub table : Text
  pub statement : Statement
  pub columns : List Text
  pub transforms : List MaskTransform

-- The groups of `by_table`, in the order of the tables.
abbrev pub by_table : List MaskRule → List (Text × List MaskRule)
by_table rules =
    map (λ t. (t, filter (λ r. r.table == t) rules))
      (dedup (sort text_leb (map (λ r. r.table) rules)))
