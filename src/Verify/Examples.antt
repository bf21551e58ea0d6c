-- ===== src/Verify/Examples.antt =====
-- A restore that lost rows of one table and a character set of another (engine/src/verify.rs).
use mysql_ssh_db_sync.Prelude.{
  ℕ, ◌≡◌, ◌↔◌, refl, true, false, some, List, [], ◌∷◌, Text, text, All, sort, lookup, list_beq,
  text_leb,
}
use mysql_ssh_db_sync.Verify.{
  VerificationReport, DeepComparison, build_report, refine_with_contents, passed, match, is_failure,
}
use mysql_ssh_db_sync.Verify.Verdicts.{HasRows, IsEmptyTable, passed-build_report}
use mysql_ssh_db_sync.Verify.Contents.{Stands, passed-refine_with_contents}

abbrev source_rows : List (Text × ℕ)
source_rows = (text "orders", 100) ∷ (text "users", 5) ∷ []

abbrev target_rows : List (Text × ℕ)
target_rows = (text "audit", 0) ∷ (text "orders", 99) ∷ (text "users", 5) ∷ []

lost_a_row : passed (build_report source_rows target_rows (text "audit" ∷ []) []) ≡ false
unfolding build_report is_failure sort lookup list_beq text_leb
lost_a_row = refl

passed-build_report_example :
    (passed (
        build_report source_rows target_rows
          (text "audit" ∷ [])
          ((text "orders", text "slow") ∷ []))
      ≡ true)
    ↔ (All (HasRows target_rows ((text "orders", text "slow") ∷ [])) source_rows
        × All (IsEmptyTable target_rows) (text "audit" ∷ []))
passed-build_report_example =
    passed-build_report source_rows target_rows (text "audit" ∷ [])
      ((text "orders", text "slow") ∷ [])

abbrev matching : VerificationReport
matching = record {
  tables = record { table = text "users"; verdict = match } ∷ [];
  tables_checked = 1;
  failures = 0;
  skipped = 0;
}

abbrev digests : DeepComparison
digests = record {
  source_digests = (text "users", some (text "aa")) ∷ [];
  dest_digests = (text "users", some (text "ab")) ∷ [];
  source_columns = [];
  dest_columns = [];
  row_counts = (text "users", 5) ∷ [];
}

wrong_bytes : passed (refine_with_contents matching digests) ≡ false
unfolding refine_with_contents is_failure lookup list_beq
wrong_bytes = refl

passed-refine_with_contents_example :
    (passed (refine_with_contents matching digests) ≡ true) ↔ All (Stands digests) matching.tables
passed-refine_with_contents_example = passed-refine_with_contents matching digests
