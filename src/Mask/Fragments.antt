-- ===== src/Mask/Fragments.antt =====
-- engine/src/mask/mod.rs: the names and the expressions of a statement, as the reader sees them.
use mysql_ssh_db_sync.Prelude.{
  nat_eq, ℕ, refl, Option, none, some, ◌++◌, Bool, true, false, Text, text, if◌then◌else◌, length,
  decimal, contains, split_once, Result, ok, err, ◌>>=◌,
}
use mysql_ssh_db_sync.Mask.{MaskTransform, hash, email, phone, null, constant}
use mysql_ssh_db_sync.Mask.Statements.{
  SqlDialect, StatementError, mysql, postgres, quoted, quote_mysql_ident, quote_pg_ident, qualified,
  quote_parts, quote_table, quote_column, placeholder, digest_expr, hash_length, hash_set,
  email_set, phone_set, Bound, set_expr,
}
use mysql_ssh_db_sync.Mask.Reader.{
  Closed, Closed-append, Closed-quoted, Closed-decimal, quote_after, placeholders,
}
use mysql_ssh_db_sync.Mask.Numbered.{Numbered, plain, mark, wrap, wrap_two}

-- What every result of a step has, if it has one.
abbrev pub OnOk : {A : Type 0} → (A → Type 0) → Result StatementError A → Type 0
OnOk P (ok a) = P a
OnOk P (err e) = Unit

pub OnOk-bind :
    {A B : Type 0} (P : A → Type 0) (Q : B → Type 0) (r : Result StatementError A)
    (f : A → Result StatementError B)
    → OnOk P r
    → ((a : A) → P a → OnOk Q (f a))
    → OnOk Q (r >>= f)
OnOk-bind P Q (ok a) f h k = k a h
OnOk-bind P Q (err e) f h k = tt

OnOk-if :
    {A : Type 0} (P : A → Type 0) (b : Bool) (e : StatementError) (a : A)
    → P a
    → OnOk P (if b then err e else ok a)
OnOk-if P true e a h = tt
OnOk-if P false e a h = h

Closed-mysql_ident : (s : Text) → OnOk (Closed mysql 0) (quote_mysql_ident s)
unfolding quote_mysql_ident
Closed-mysql_ident s = OnOk-if _ (contains s 0) _ (quoted 96 s) (Closed-quoted mysql 96 refl refl s)

Closed-pg_ident : (s : Text) → OnOk (Closed postgres 0) (quote_pg_ident s)
unfolding quote_pg_ident
Closed-pg_ident s = OnOk-if _ (contains s 0) _ (quoted 34 s) (Closed-quoted postgres 34 refl refl s)

pub Closed-quote_column : (d : SqlDialect) (s : Text) → OnOk (Closed d 0) (quote_column d s)
unfolding quote_column
Closed-quote_column mysql s = Closed-mysql_ident s
Closed-quote_column postgres s = Closed-pg_ident s

Closed-qualified : (schema table : Text) → OnOk (Closed postgres 0) (qualified schema table)
unfolding quote_after placeholders
Closed-qualified schema table =
    OnOk-bind (Closed postgres 0) (Closed postgres 0) (quote_pg_ident schema) _
      (Closed-pg_ident schema)
      (λ s hs.
        OnOk-bind (Closed postgres 0) (Closed postgres 0) (quote_pg_ident table) _
          (Closed-pg_ident table)
          (λ t ht.
            Closed-append postgres s (text "." ++ t) hs
              (Closed-append postgres (text ".") t ((refl, refl)) ht)))

pub Closed-quote_table : (d : SqlDialect) (s : Text) → OnOk (Closed d 0) (quote_table d s)
unfolding quote_table
Closed-quote_table mysql s = Closed-mysql_ident s
Closed-quote_table postgres s = parts (split_once 46 s)
  where
    parts : (o : Option (Text × Text)) → OnOk (Closed postgres 0) (quote_parts s o)
    parts none = Closed-qualified (text "public") s
    parts (some (schema, table)) = Closed-qualified schema table

Numbered-digest :
    (d : SqlDialect) (col p : Text) {n : ℕ}
    → Closed d 0 col
    → Numbered d true n 1 p
    → Numbered d false n 1 (digest_expr d col p)
unfolding quote_after placeholders
Numbered-digest mysql col p hc hp =
    wrap_two mysql (text "SHA2(CONCAT(") p (text ", ") col (text "), 256)") ((refl, refl)) hp
      ((refl, refl)) refl hc ((refl, refl))
Numbered-digest postgres col p hc hp =
    wrap_two postgres (text "encode(sha256(convert_to(") p (text " || ") col
      (text "::text, 'UTF8')), 'hex')") ((refl, refl)) hp ((refl, refl)) refl hc ((refl, refl))

Numbered-hash_set :
    (d : SqlDialect) (digest : Text) (len : ℕ) {n : ℕ}
    → Numbered d false n 1 digest
    → Numbered d false n 1 (hash_set d digest len)
unfolding quote_after placeholders
Numbered-hash_set mysql digest len h =
    wrap_two mysql (text "LEFT(") digest (text ", ") (decimal len) (text ")") ((refl, refl)) h
      ((refl, refl)) refl (Closed-decimal mysql len) ((refl, refl))
Numbered-hash_set postgres digest len h =
    wrap_two postgres (text "left(") digest (text ", ") (decimal len) (text ")") ((refl, refl)) h
      ((refl, refl)) refl (Closed-decimal postgres len) ((refl, refl))

Numbered-email_set :
    (d : SqlDialect) (digest : Text) {n : ℕ}
    → Numbered d false n 1 digest
    → Numbered d false n 1 (email_set d digest)
unfolding quote_after placeholders
Numbered-email_set mysql digest h =
    wrap mysql (text "CONCAT(LEFT(") digest (text ", 16), '@example.invalid')") ((refl, refl)) h
      ((refl, refl)) refl
Numbered-email_set postgres digest h =
    wrap postgres (text "left(") digest (text ", 16) || '@example.invalid'") ((refl, refl)) h
      ((refl, refl)) refl

Numbered-phone_set :
    (d : SqlDialect) (digest : Text) {n : ℕ}
    → Numbered d false n 1 digest
    → Numbered d false n 1 (phone_set d digest)
unfolding quote_after placeholders
Numbered-phone_set mysql digest h =
    wrap mysql (text "CONCAT('+1555', LPAD(CONV(LEFT(") digest
      (text ", 7), 16, 10) % 10000000, 7, '0'))") ((refl, refl)) h ((refl, refl)) refl
Numbered-phone_set postgres digest h =
    wrap postgres (text "'+1555' || lpad(((('x' || left(") digest
      (text ", 7))::bit(28)::bigint) % 10000000)::text, 7, '0')") ((refl, refl)) h ((refl, refl))
      refl

-- The expression of a rule has a placeholder for each value that it binds, numbered from `n` on.
abbrev pub Matches : SqlDialect → ℕ → Bound → Type 0
Matches d n (sql, binds) = (last : Bool) × Numbered d last n (length binds) sql

pub Matches-set_expr :
    (d : SqlDialect) (col : Text) (transform : MaskTransform) (salt : Text) (n : ℕ)
    → Closed d 0 col
    → Matches d n (set_expr d col transform salt n)
unfolding set_expr quote_after placeholders
Matches-set_expr d col (hash len) salt n h = (
  false,
  Numbered-hash_set d _ (hash_length len) (Numbered-digest d col (placeholder d n) h mark),
)
Matches-set_expr d col email salt n h =
    (false, Numbered-email_set d _ (Numbered-digest d col (placeholder d n) h mark))
Matches-set_expr d col phone salt n h =
    (false, Numbered-phone_set d _ (Numbered-digest d col (placeholder d n) h mark))
Matches-set_expr mysql col null salt n h = (false, plain ((refl, refl)))
Matches-set_expr postgres col null salt n h = (false, plain ((refl, refl)))
Matches-set_expr d col (constant value) salt n h = (true, mark)
