-- ===== src/Mask/Placeholders.antt =====
-- engine/src/mask/mod.rs: each statement has one placeholder for each value that it binds.
use mysql_ssh_db_sync.Prelude.{
  ℕ, Bool, false, ◌+◌, ◌≡◌, refl, sym, ap, subst, ◌∙◌, List, [], ◌∷◌, ◌++◌, Text, text, length,
  length-append, join, All, arith, Result, ok, ◌>>=◌,
}
use mysql_ssh_db_sync.Types.{Engine}
use mysql_ssh_db_sync.Mask.{MaskTransform, MaskRule}
use mysql_ssh_db_sync.Mask.Statements.{
  SqlDialect, StatementError, dialect_of, quote_table, quote_column, set_expr, violation_expr,
  Statement, TableStatement, TableCheck, by_table,
}
use mysql_ssh_db_sync.Mask.Updates.{
  Render, assignment, checked, render_rules, update_statement, check_statement, each_table,
  update_statements, check_statements,
}
use mysql_ssh_db_sync.Mask.Numbered.{Numbered, plain, append, Numbered-Closed, ahead, shut, behind}
use mysql_ssh_db_sync.Mask.Reader.{Closed, Closed-append, quote_after, placeholders}
use mysql_ssh_db_sync.Mask.Fragments.{
  OnOk, OnOk-bind, Matches, Matches-set_expr, Closed-quote_column, Closed-quote_table,
}
use mysql_ssh_db_sync.Mask.Violations.{Matches-violation_expr, Numbered-projection, Closed-fixed}

-- Outside its quoted names and texts, a statement has as many placeholders as it binds values,
-- numbered from 1 on in the order in which they stand, and it leaves no quote open.
abbrev pub IsBalanced : SqlDialect → Statement → Type 0
IsBalanced d s =
    Closed d (length s.binds) s.sql × ((last : Bool) × Numbered d last 1 (length s.binds) s.sql)

-- The rendered rules, joined by commas, with what they bind.
abbrev Joined : SqlDialect → ℕ → List Text × List Text → Type 0
Joined d n (texts, binds) =
    (last : Bool) × Numbered d last n (length binds) (join (text ", ") texts)

Joined-nil : (d : SqlDialect) (n : ℕ) → Joined d n ([], [])
unfolding join quote_after placeholders
Joined-nil d n = (false, plain ((refl, refl)))

Numbered-join :
    (d : SqlDialect) (last end : Bool) (n k l : ℕ) (t : Text) (ts : List Text)
    → Numbered d last n k t
    → Numbered d end (n + k) l (join (text ", ") ts)
    → (open' : Bool) × Numbered d open' n (k + l) (join (text ", ") (t ∷ ts))
unfolding join
Numbered-join d last end n k l t [] h j =
    let none' : l ≡ 0 = unfold placeholders in sym (Numbered-Closed j).1 in
    (last, subst (λ m. Numbered d last n m t) (let e : k ≡ k + l = omega (arith, none') in e) h)
Numbered-join d last end n k l t (u ∷ ts) h j = (
  end,
  append h (ahead d (text ", ") (join (text ", ") (u ∷ ts)) (Closed-fixed d).1 j) (λ _. refl),
)

module _ (d : SqlDialect) where
  abbrev IsSound : Render → Type 0
  IsSound render =
      (col : Text) (transform : MaskTransform) (n : ℕ)
      → Closed d 0 col
      → Matches d n (render col transform n)

  Joined-render_rules :
      (render : Render) (sound : IsSound render) (n : ℕ) (rules : List MaskRule)
      → OnOk (Joined d n) (render_rules d render n rules)
  unfolding render_rules
  Joined-render_rules render sound n [] = Joined-nil d n
  Joined-render_rules render sound n (r ∷ rules) =
      OnOk-bind (Closed d 0) (Joined d n) (quote_column d r.column) _
        (Closed-quote_column d r.column)
        (λ col closed.
          let (shown, binds) = render col r.transform n in
          let (last, numbered) = sound col r.transform n closed in
          OnOk-bind (Joined d (n + length binds)) (Joined d n)
            (render_rules d render (n + length binds) rules) _
            (Joined-render_rules render sound (n + length binds) rules)
            (λ (texts, more) (end, rest).
              subst (λ k. (open' : Bool) × Numbered d open' n k (join (text ", ") (shown ∷ texts)))
                (sym (length-append binds more))
                (Numbered-join d last end n (length binds) (length more) shown texts numbered
                  rest)))

  IsSound-assignment : (salt : Text) → IsSound (assignment d salt)
  IsSound-assignment salt col transform n h =
      let (expr, binds) = set_expr d col transform salt n in
      let (last, numbered) = Matches-set_expr d col transform salt n h in
      (
        last,
        ahead d col (text " = " ++ expr) h (ahead d (text " = ") expr (Closed-fixed d).0 numbered),
      )

  IsSound-checked : IsSound (checked d)
  IsSound-checked col transform n h =
      let (violation, binds) = violation_expr d col transform n in
      let (last, numbered) = Matches-violation_expr d col transform n h in
      (false, Numbered-projection d last n (length binds) violation numbered)

  balanced :
      (last : Bool) (s : Statement) → Numbered d last 1 (length s.binds) s.sql → IsBalanced d s
  balanced last s h = (Numbered-Closed h, (last, h))

  IsBalanced-update :
      (salt : Text) (group : Text × List MaskRule)
      → OnOk (λ u. IsBalanced d u.statement) (update_statement d salt group)
  IsBalanced-update salt (table, rules) =
      OnOk-bind (Closed d 0) _ (quote_table d table) _ (Closed-quote_table d table) (λ name closed.
        OnOk-bind (Joined d 1) _ (render_rules d (assignment d salt) 1 rules) _
          (Joined-render_rules (assignment d salt) (IsSound-assignment salt) 1 rules)
          (λ (texts, binds) (last, joined).
            let front = Closed-append d (text "UPDATE ") name (Closed-fixed d).2 closed in
            let set =
              Closed-append d (text "UPDATE " ++ name) (text " SET ") front (Closed-fixed d).3 in
            balanced last _ (
              ahead d (text "UPDATE " ++ name ++ text " SET ") (join (text ", ") texts) set
                joined)))

  IsBalanced-check :
      (group : Text × List MaskRule)
      → OnOk (λ c. IsBalanced d c.statement) (check_statement d group)
  IsBalanced-check (table, rules) =
      OnOk-bind (Closed d 0) _ (quote_table d table) _ (Closed-quote_table d table) (λ name closed.
        OnOk-bind (Joined d 1) _ (render_rules d (checked d) 1 rules) _
          (Joined-render_rules (checked d) IsSound-checked 1 rules)
          (λ (texts, binds) (last, joined).
            let list = join (text ", ") texts in
            let front = ahead d (text "SELECT ") list (Closed-fixed d).4 joined in
            let from =
              shut d (text "SELECT " ++ list) (text " FROM ") front (Closed-fixed d).5 refl in
            balanced false _ (behind d (text "SELECT " ++ list ++ text " FROM ") name from closed)))

each_table-All :
    {A B : Type 0} (P : B → Type 0) (f : A → Result StatementError B)
    → ((a : A) → OnOk P (f a))
    → (as' : List A) → OnOk (All P) (each_table f as')
unfolding each_table
each_table-All P f h [] = tt
each_table-All P f h (a ∷ as') = OnOk-bind P (All P) (f a) _ (h a) (λ b hb.
    OnOk-bind (All P) (All P) (each_table f as') _ (each_table-All P f h as') (λ bs hbs. (hb, hbs)))

-- Whatever the names of the tables and columns hold, quotes and marks included, each statement
-- that masks a table and each that checks one has exactly one placeholder for each value that it
-- binds, numbered from 1 on in the order in which they stand (on PostgreSQL they are $1, $2 and so
-- on, each once), and it closes each quote that it opens, so that no name can be read as part of the
-- statement.
pub statements-IsBalanced :
    (engine : Engine) (d : SqlDialect) (rules : List MaskRule) (salt : Text)
    (updates : List TableStatement) (checks : List TableCheck)
    → dialect_of engine ≡ ok d
    → update_statements engine rules salt ≡ ok updates
    → check_statements engine rules ≡ ok checks
    → All (λ u. IsBalanced d u.statement) updates × All (λ c. IsBalanced d c.statement) checks
unfolding update_statements check_statements
statements-IsBalanced engine d rules salt updates checks e u c = (
  subst (OnOk (All (λ u. IsBalanced d u.statement)))
      (ap (λ r. r >>= λ d. each_table (update_statement d salt) (by_table rules)) (sym e) ∙ u)
      (each_table-All (λ u. IsBalanced d u.statement) (update_statement d salt)
        (IsBalanced-update d salt) (by_table rules)),
  subst (OnOk (All (λ c. IsBalanced d c.statement)))
      (ap (λ r. r >>= λ d. each_table (check_statement d) (by_table rules)) (sym e) ∙ c)
      (each_table-All (λ c. IsBalanced d c.statement) (check_statement d) (IsBalanced-check d)
        (by_table rules)),
)
