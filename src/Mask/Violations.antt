-- ===== src/Mask/Violations.antt =====
-- engine/src/mask/mod.rs: the predicates of the read-back, as the reader sees them.
use mysql_ssh_db_sync.Prelude.{ℕ, Bool, true, false, refl, ◌++◌, Text, text, decimal}
use mysql_ssh_db_sync.Mask.{MaskTransform, hash, email, phone, null, constant}
use mysql_ssh_db_sync.Mask.Statements.{
  SqlDialect, mysql, postgres, as_text, placeholder, hash_length, hash_violation, violation_expr,
  projection,
}
use mysql_ssh_db_sync.Mask.Reader.{Closed, Closed-append, Closed-decimal, quote_after, placeholders}
use mysql_ssh_db_sync.Mask.Numbered.{Numbered, plain, mark, ahead, wrap}
use mysql_ssh_db_sync.Mask.Fragments.{Matches}

Closed-as_text : (d : SqlDialect) (col : Text) → Closed d 0 col → Closed d 0 (as_text d col)
unfolding quote_after placeholders
Closed-as_text mysql col h =
    Closed-append mysql (text "CAST(" ++ col) (text " AS CHAR)")
      (Closed-append mysql (text "CAST(") col ((refl, refl)) h) ((refl, refl))
Closed-as_text postgres col h = Closed-append postgres col (text "::text") h ((refl, refl))

-- `col`, a fixed text, the column as text, and a fixed text.
shown_between :
    (d : SqlDialect) (col a b : Text)
    → Closed d 0 col
    → Closed d 0 a
    → Closed d 0 b
    → Closed d 0 (col ++ a ++ as_text d col ++ b)
shown_between d col a b h ha hb =
    Closed-append d (col ++ a ++ as_text d col) b
      (Closed-append d (col ++ a) (as_text d col) (Closed-append d col a h ha)
        (Closed-as_text d col h))
      hb

-- A text, the length, a fixed text, the column as text, and a fixed text.
length_then :
    (d : SqlDialect) (front : Text) (len : ℕ) (a col b : Text)
    → Closed d 0 front
    → Closed d 0 a
    → Closed d 0 col
    → Closed d 0 b
    → Closed d 0 (front ++ decimal len ++ a ++ as_text d col ++ b)
length_then d front len a col b hf ha h hb =
    let numbered = Closed-append d front (decimal len) hf (Closed-decimal d len) in
    let with_a = Closed-append d (front ++ decimal len) a numbered ha in
    let shown =
      Closed-append d (front ++ decimal len ++ a) (as_text d col) with_a (Closed-as_text d col h) in
    Closed-append d (front ++ decimal len ++ a ++ as_text d col) b shown hb

Closed-hash_violation :
    (d : SqlDialect) (col : Text) (len : ℕ)
    → Closed d 0 col
    → Closed d 0 (hash_violation d col (as_text d col) len)
unfolding quote_after placeholders
Closed-hash_violation mysql col len h =
    length_then mysql
      (col ++ text " IS NOT NULL AND (CHAR_LENGTH(" ++ as_text mysql col ++ text ") <> ") len
      (text " OR ") col (text " NOT REGEXP '^[0-9a-f]+$')")
      (shown_between mysql col (text " IS NOT NULL AND (CHAR_LENGTH(") (text ") <> ") h
        ((refl, refl)) ((refl, refl)))
      ((refl, refl)) h ((refl, refl))
Closed-hash_violation postgres col len h =
    length_then postgres
      (col ++ text " IS NOT NULL AND (length(" ++ as_text postgres col ++ text ") <> ") len
      (text " OR ") col (text " !~ '^[0-9a-f]+$')")
      (shown_between postgres col (text " IS NOT NULL AND (length(") (text ") <> ") h ((refl, refl))
        ((refl, refl)))
      ((refl, refl)) h ((refl, refl))

-- The fixed texts that both dialects share.
abbrev IsFixed : Text → Type 0
IsFixed s = Closed mysql 0 s × Closed postgres 0 s

fixed : (d : SqlDialect) (s : Text) → IsFixed s → Closed d 0 s
fixed mysql s h = h.0
fixed postgres s h = h.1

Closed-email_violation :
    (d : SqlDialect) (col b : Text)
    → Closed d 0 col
    → IsFixed b
    → Closed d 0 (col ++ text " IS NOT NULL AND " ++ as_text d col ++ b)
unfolding quote_after placeholders
Closed-email_violation d col b h f =
    shown_between d col (text " IS NOT NULL AND ") b h
      (fixed d (text " IS NOT NULL AND ") (((refl, refl), (refl, refl)))) (fixed d b f)

pub Matches-violation_expr :
    (d : SqlDialect) (col : Text) (transform : MaskTransform) (n : ℕ)
    → Closed d 0 col
    → Matches d n (violation_expr d col transform n)
unfolding violation_expr quote_after placeholders
Matches-violation_expr d col (hash len) n h =
    (false, plain (Closed-hash_violation d col (hash_length len) h))
Matches-violation_expr d col email n h = (
  false,
  plain (
      Closed-email_violation d col (text " NOT LIKE '%@example.invalid'") h
        (((refl, refl), (refl, refl)))),
)
Matches-violation_expr d col phone n h = (
  false,
  plain (Closed-email_violation d col (text " NOT LIKE '+1555%'") h (((refl, refl), (refl, refl)))),
)
Matches-violation_expr d col null n h = (
  false,
  plain (
      Closed-append d col (text " IS NOT NULL") h
        (fixed d (text " IS NOT NULL") (((refl, refl), (refl, refl))))),
)
Matches-violation_expr d col (constant value) n h = (
  true,
  ahead d (col ++ text " IS NULL OR " ++ as_text d col ++ text " <> ") (placeholder d n)
      (shown_between d col (text " IS NULL OR ") (text " <> ") h
        (fixed d (text " IS NULL OR ") (((refl, refl), (refl, refl))))
        (fixed d (text " <> ") (((refl, refl), (refl, refl)))))
      mark,
)

pub Numbered-projection :
    (d : SqlDialect) (last : Bool) (n k : ℕ) (violation : Text)
    → Numbered d last n k violation
    → Numbered d false n k (projection d violation)
unfolding quote_after placeholders
Numbered-projection mysql last n k violation h =
    wrap mysql (text "CAST(COALESCE(SUM(CASE WHEN ") violation
      (text " THEN 1 ELSE 0 END), 0) AS SIGNED)") ((refl, refl)) h ((refl, refl)) refl
Numbered-projection postgres last n k violation h =
    wrap postgres (text "COALESCE(SUM(CASE WHEN ") violation
      (text " THEN 1 ELSE 0 END), 0)::bigint") ((refl, refl)) h ((refl, refl)) refl

-- The fixed parts of the statements.
pub Closed-fixed :
    (d : SqlDialect)
    → Closed d 0 (text " = ")
      × Closed d 0 (text ", ")
      × Closed d 0 (text "UPDATE ")
      × Closed d 0 (text " SET ")
      × Closed d 0 (text "SELECT ")
      × Closed d 0 (text " FROM ")
unfolding quote_after placeholders
Closed-fixed mysql =
    ((refl, refl), (refl, refl), (refl, refl), (refl, refl), (refl, refl), (refl, refl))
Closed-fixed postgres =
    ((refl, refl), (refl, refl), (refl, refl), (refl, refl), (refl, refl), (refl, refl))
