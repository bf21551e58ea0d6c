-- ===== src/Mask.antt =====
-- engine/src/mask/mod.rs: masking rules, and the plan of which of them apply.
pub mod Columns
pub mod Coverage
pub mod Statements
pub mod Updates
pub mod Reader
pub mod Numbered
pub mod Fragments
pub mod Violations
pub mod Placeholders
mod StatementExamples
mod Examples
use mysql_ssh_db_sync.Prelude.{
  ℕ, Option, none, some, List, [], ◌∷◌, ◌++◌, Bool, true, false, not, ◌&&◌, Text, text, map, sort,
  text_leb, dedup, any, contains, if◌then◌else◌, split, ◌==◌, list_eq, nat_eq, Result, ok, err,
  ◌>>=◌,
}
use mysql_ssh_db_sync.Types.{Engine, is_relational}

pub data MaskTransform : Type 0 where
  hash : Option ℕ → MaskTransform
  email phone null : MaskTransform
  constant : Text → MaskTransform

pub record MaskRule : Type 0 where
  pub table : Text
  pub column : Text
  pub transform : MaskTransform

pub record InertRule : Type 0 where
  pub rule : MaskRule
  pub reason : Text

pub record MaskingCoverage : Type 0 where
  pub effective : List MaskRule
  pub inert : List InertRule

-- The set of the masked tables, in its order.
unfoldable pub tables : MaskingCoverage → List Text
tables c = dedup (sort text_leb (map (λ r. r.table) c.effective))

pub record MaskingReport : Type 0 where
  pub tables : List Text
  pub columns : List Text
  pub rows_rewritten : ℕ
  pub inert : List InertRule
  pub verified : Bool

pub data MaskError : Type 0 where
  duplicate_rule unknown_table : Text → Text → MaskError
  unknown_column : Text → Text → List Text → MaskError

-- Whether a rule for the same column came before.
abbrev pub is_repeated : List (Text × Text) → MaskRule → Bool
is_repeated seen r = any (λ (table, column). table == r.table && column == r.column) seen

-- The first piece of `split('.')`.
abbrev pub first_piece : List Text → Text → Text
first_piece [] column = column
first_piece (piece ∷ pieces) column = piece

-- The field that a rule's column is checked as.
unfoldable pub wanted : Engine → MaskRule → Text
unfolding is_relational split
wanted engine r =
    if is_relational engine then r.column else first_piece (split 46 r.column) r.column

module _ (engine : Engine) (tables_with_data : List Text)
    (source_columns : Text → Option (List Text)) where
  -- One round of the loop: whether the rule applies.
  unfoldable pub rule_applies : List (Text × Text) → MaskRule → Result MaskError Bool
  unfolding wanted
  rule_applies seen r =
      if is_repeated seen r
      then err (duplicate_rule r.table r.column)
      else if not (contains tables_with_data r.table)
      then ok false
      else elim (source_columns r.table) [
        | none ↦ err (unknown_table r.table r.column)
        | some columns ↦
            if not (contains columns (wanted engine r))
            then err (unknown_column r.table r.column columns)
            else ok true
      ]

  abbrev pub with_rule : MaskRule → Bool → MaskingCoverage → MaskingCoverage
  with_rule r true c = record c { effective = r ∷ c.effective }
  with_rule r false c = record c {
    inert =
        record {
          rule = r;
          reason =
              r.table
              ++ text
                  " is not in this plan as a table carrying data, so no rows reach the destination to mask";
        }
        ∷ c.inert;
  }

  -- The loop over the rules, with the columns that rules were for so far.
  unfoldable pub plan_rules : List (Text × Text) → List MaskRule → Result MaskError MaskingCoverage
  unfolding rule_applies
  plan_rules seen [] = ok (record { effective = []; inert = [] })
  plan_rules seen (r ∷ rules) = rule_applies seen r >>= λ applies.
      plan_rules ((r.table, r.column) ∷ seen) rules >>= λ c. ok (with_rule r applies c)

  unfoldable pub plan_coverage : List MaskRule → Result MaskError MaskingCoverage
  unfolding plan_rules
  plan_coverage rules = plan_rules [] rules
