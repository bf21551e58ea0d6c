-- ===== src/Verify.antt =====
-- engine/src/verify.rs: the report of a comparison between two databases. A `BTreeMap` is the list
-- of its entries in the order of their keys.
pub mod Verdicts
pub mod Contents
mod Examples
use mysql_ssh_db_sync.Prelude.{
  ℕ, Bool, true, false, not, ◌&&◌, ◌||◌, Option, none, some, List, [], ◌∷◌, ◌++◌, map, Text,
  nat_beq, if◌then◌else◌, length, filter, any, contains, is_empty, sort, text_leb, ◌==◌, list_eq,
  nat_eq, lookup,
}

pub data TableVerdict : Type 0 where
  match : TableVerdict
  row_count_mismatch : ℕ → ℕ → TableVerdict
  missing_at_destination unexpected_at_destination : TableVerdict
  skipped : Text → TableVerdict
  content_mismatch : ℕ → TableVerdict
  schema_mismatch : List Text → List Text → TableVerdict

pub record TableVerification : Type 0 where
  pub table : Text
  pub verdict : TableVerdict

pub record VerificationReport : Type 0 where
  pub tables : List TableVerification
  pub tables_checked : ℕ
  pub failures : ℕ
  pub skipped : ℕ

abbrev pub passed : VerificationReport → Bool
passed r = nat_beq r.failures 0

unfoldable pub is_failure : TableVerdict → Bool
is_failure (row_count_mismatch source destination) = true
is_failure missing_at_destination = true
is_failure (content_mismatch rows) = true
is_failure (schema_mismatch missing extra) = true
is_failure _ = false

abbrev pub is_skipped : TableVerdict → Bool
is_skipped (skipped reason) = true
is_skipped _ = false

-- Of a table that should have `source` rows, by what the destination reports.
abbrev pub compared : ℕ → Option ℕ → TableVerdict
compared source none = missing_at_destination
compared source (some destination) =
    if nat_beq destination source then match else row_count_mismatch source destination

-- Of a table whose counting was skipped, if there is a reason, and else as counted.
abbrev pub unless_skipped : Option Text → TableVerdict → TableVerdict
unless_skipped (some reason) verdict = skipped reason
unless_skipped none verdict = verdict

module _ (actual : List (Text × ℕ)) where
  abbrev pub check_expected : List (Text × Text) → Text × ℕ → TableVerification
  check_expected skips (name, source) = record {
    table = name;
    verdict = unless_skipped (lookup name skips) (compared source (lookup name actual));
  }

  abbrev pub check_schema_only : Text → TableVerification
  check_schema_only name = record { table = name; verdict = compared 0 (lookup name actual) }

  module _ (expected : List (Text × ℕ)) (schema_only : List Text) where
    abbrev pub is_expected : Text → Bool
    is_expected name = any (λ e. e.0 == name) expected || contains schema_only name

    abbrev pub unexpected : List TableVerification
    unexpected =
        map (λ e. record { table = e.0; verdict = unexpected_at_destination })
          (filter (λ e. not (is_expected e.0)) actual)

abbrev pub table_leb : TableVerification → TableVerification → Bool
table_leb a b = text_leb a.table b.table

abbrev pub count_failures : List TableVerification → ℕ
count_failures ts = length (filter (λ t. is_failure t.verdict) ts)

abbrev pub count_skipped : List TableVerification → ℕ
count_skipped ts = length (filter (λ t. is_skipped t.verdict) ts)

unfoldable pub build_report :
    List (Text × ℕ) → List (Text × ℕ) → List Text → List (Text × Text) → VerificationReport
unfolding is_failure sort
build_report expected actual schema_only skips =
    let tables = sort table_leb (
      map (check_expected actual skips) expected
      ++ (map (check_schema_only actual) schema_only ++ unexpected actual expected schema_only)) in
    record {
      tables = tables;
      tables_checked = length tables;
      failures = count_failures tables;
      skipped = count_skipped tables;
    }

pub record DeepComparison : Type 0 where
  pub source_digests : List (Text × Option Text)
  pub dest_digests : List (Text × Option Text)
  pub source_columns : List (Text × List Text)
  pub dest_columns : List (Text × List Text)
  pub row_counts : List (Text × ℕ)

-- The members of the first list that the second one lacks.
abbrev pub lacking : List Text → List Text → List Text
lacking xs ys = filter (λ c. not (contains ys c)) xs

-- What the columns of both sides, where both are known, say of a table.
abbrev pub schema_verdict : Option (List Text) → Option (List Text) → Option TableVerdict
schema_verdict (some src) (some dst) =
    if not (is_empty (lacking src dst)) || not (is_empty (lacking dst src))
    then some (schema_mismatch (lacking src dst) (lacking dst src))
    else none
schema_verdict _ _ = none

abbrev unwrap_or_zero : Option ℕ → ℕ
unwrap_or_zero none = 0
unwrap_or_zero (some n) = n

-- What the digests of both sides, where both could be taken, say of it.
abbrev pub digest_verdict : Option ℕ → Option (Option Text) → Option (Option Text) → TableVerdict
digest_verdict rows (some (some src)) (some (some dst)) =
    if src == dst then match else content_mismatch (unwrap_or_zero rows)
digest_verdict rows _ _ = match

abbrev pub first_verdict : Option TableVerdict → TableVerdict → TableVerdict
first_verdict (some verdict) _ = verdict
first_verdict none verdict = verdict

abbrev pub deep_verdict : DeepComparison → Text → TableVerdict
deep_verdict deep name =
    first_verdict (schema_verdict (lookup name deep.source_columns) (lookup name deep.dest_columns))
      (digest_verdict (lookup name deep.row_counts) (lookup name deep.source_digests)
        (lookup name deep.dest_digests))

-- The body of the loop: only a match is looked at again.
abbrev pub refined : DeepComparison → Text → TableVerdict → TableVerdict
refined deep name match = deep_verdict deep name
refined deep name verdict = verdict

abbrev pub refine_entry : DeepComparison → TableVerification → TableVerification
refine_entry deep t = record { table = t.table; verdict = refined deep t.table t.verdict }

unfoldable pub refine_with_contents : VerificationReport → DeepComparison → VerificationReport
unfolding is_failure
refine_with_contents report deep =
    let tables = map (refine_entry deep) report.tables in
    record {
      tables = tables;
      tables_checked = report.tables_checked;
      failures = count_failures tables;
      skipped = count_skipped tables;
    }
