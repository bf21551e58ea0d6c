-- ===== src/Drill/Checks.antt =====
-- engine/src/ops.rs: when a drill's report passes.
use mysql_ssh_db_sync.Prelude.{
  ℕ, ◌≡◌, ◌↔◌, refl, sym, subst, ◌∙◌, Bool, true, false, Option, none, some, List, [], ◌∷◌, ◌++◌,
  map, arith, Text, All, lookup, sum_by-append, ok, bind-ok, ok-eq, is_some,
}
use mysql_ssh_db_sync.Types.{BackupManifest}
use mysql_ssh_db_sync.Verify.{
  TableVerdict, TableVerification, VerificationReport, is_failure, match, row_count_mismatch,
  missing_at_destination, unexpected_at_destination, skipped, content_mismatch, schema_mismatch,
  count_failures, passed,
}
use mysql_ssh_db_sync.Verify.Verdicts.{Harmless, failure, count_failures-sum_by, none_fails}
use mysql_ssh_db_sync.Drill.{
  DrillSite, data_verdict, structure_verdict, schema_only, check_data_table, check_structure,
  count_report, is_unreadable, read_through, deep_report, check_against_manifest, or_failed,
}

-- The rows of a table that were counted, against those that the backup had counted, if it had.
abbrev pub Arrived : Option ℕ → Option ℕ → Type 0
Arrived none recorded = ⊥
Arrived (some actual) none = Unit
Arrived (some actual) (some source) = actual ≡ source

abbrev pub HasArrived : BackupManifest → List (Text × ℕ) → Text → Type 0
HasArrived manifest counts name =
    Arrived (lookup name counts) (lookup name manifest.source_row_counts)

abbrev pub IsThere : List (Text × ℕ) → Text → Type 0
IsThere counts name = is_some (lookup name counts) ≡ true

data_iff : (o r : Option ℕ) → (is_failure (data_verdict o r) ≡ false) ↔ Arrived o r
unfolding is_failure data_verdict
data_iff none r = ground arith
data_iff (some a) none = ground arith
data_iff (some a) (some s) = ground arith

structure_iff : (o : Option ℕ) → (is_failure (structure_verdict o) ≡ false) ↔ (is_some o ≡ true)
unfolding is_failure
structure_iff none = ground arith
structure_iff (some a) = ground arith

module _ (manifest : BackupManifest) (counts : List (Text × ℕ)) where
  data_tables_iff :
      (names : List Text)
      → All Harmless (map (check_data_table manifest counts) names)
        ↔ All (HasArrived manifest counts) names
  data_tables_iff [] = ground arith
  data_tables_iff (n ∷ ns) =
      let here = data_iff (lookup n counts) (lookup n manifest.source_row_counts) in
      let rest = data_tables_iff ns in
      ((λ h. (here.0 h.0, rest.0 h.1)), (λ h. (here.1 h.0, rest.1 h.1)))

  structures_iff :
      (names : List Text)
      → All Harmless (map (check_structure manifest counts) names) ↔ All (IsThere counts) names
  structures_iff [] = ground arith
  structures_iff (n ∷ ns) =
      let here = structure_iff (lookup n counts) in
      let rest = structures_iff ns in
      ((λ h. (here.0 h.0, rest.0 h.1)), (λ h. (here.1 h.0, rest.1 h.1)))

  abbrev pub Complete : Type 0
  Complete =
      All (HasArrived manifest counts) manifest.tables_with_data
      × All (IsThere counts) (schema_only manifest)

  count_report_iff : (passed (count_report manifest counts) ≡ true) ↔ Complete
  unfolding count_report
  count_report_iff =
      let checked = map (check_data_table manifest counts) manifest.tables_with_data in
      let empties = map (check_structure manifest counts) (schema_only manifest) in
      let total =
        count_failures-sum_by (checked ++ empties) ∙ sum_by-append failure checked empties in
      let d = data_tables_iff manifest.tables_with_data in
      let s = structures_iff (schema_only manifest) in
      let cd = none_fails checked in
      let cs = none_fails empties in
      (
        (λ h. (d.0 (cd.0 (ground (arith, h, total))), s.0 (cs.0 (ground (arith, h, total))))),
        (λ h. ground (arith, total, cd.1 (d.1 h.0), cs.1 (s.1 h.1))),
      )

-- Reading every row hides no failure and makes none.
failure-read_through : (b : Bool) (v : TableVerdict) → is_failure (read_through b v) ≡ is_failure v
unfolding is_failure
failure-read_through false v = refl
failure-read_through true match = refl
failure-read_through true (row_count_mismatch a b) = refl
failure-read_through true missing_at_destination = refl
failure-read_through true unexpected_at_destination = refl
failure-read_through true (skipped reason) = refl
failure-read_through true (content_mismatch n) = refl
failure-read_through true (schema_mismatch a b) = refl

count_failures-map :
    (f : TableVerification → TableVerification)
    → ((t : TableVerification) → is_failure (f t).verdict ≡ is_failure t.verdict)
    → (ts : List TableVerification) → count_failures (map f ts) ≡ count_failures ts
count_failures-map f h [] = refl
count_failures-map f h (t ∷ ts) = ground (arith, h t, count_failures-map f h ts)

-- The tally of failures is the number of failures in the list.
abbrev pub IsTallied : VerificationReport → Type 0
IsTallied r = r.failures ≡ count_failures r.tables

IsTallied-count_report :
    (manifest : BackupManifest) (counts : List (Text × ℕ))
    → IsTallied (count_report manifest counts)
unfolding count_report
IsTallied-count_report manifest counts = refl

IsTallied-deep_report :
    (digests : List (Text × Option Text)) (columns : List (Text × List Text))
    (r : VerificationReport)
    → IsTallied r
    → IsTallied (deep_report digests columns r)
unfolding deep_report
IsTallied-deep_report digests columns r h =
    h
    ∙ sym (
        count_failures-map _
          (λ t.
            failure-read_through (is_unreadable (lookup t.table digests) (lookup t.table columns))
              t.verdict)
          r.tables)

-- A report that a drill gets passes if and only if every table that was backed up with its rows is
-- there, with as many rows as the backup counted, if it counted them, and every other table is
-- there. The deep pass changes nothing about that, and the tally of failures agrees with the list.
pub passed-check_against_manifest :
    (site : DrillSite) (manifest : BackupManifest) (scratch : Text) (deep : Bool)
    (counts : List (Text × ℕ)) (report : VerificationReport)
    → site.count_tables scratch manifest.tables ≡ ok counts
    → check_against_manifest site manifest scratch deep ≡ ok report
    → ((passed report ≡ true) ↔ Complete manifest counts) × IsTallied report
unfolding check_against_manifest
passed-check_against_manifest site manifest scratch false counts report c h =
    let same : count_report manifest counts ≡ report = ok-eq (rw c at h) in
    subst (λ r. ((passed r ≡ true) ↔ Complete manifest counts) × IsTallied r) same
      ((count_report_iff manifest counts, IsTallied-count_report manifest counts))
passed-check_against_manifest site manifest scratch true counts report c h =
    let ((digests, columns), _, same) =
      bind-ok (or_failed (site.digest_tables scratch manifest.tables)) _ (rw c at h) in
    subst (λ r. ((passed r ≡ true) ↔ Complete manifest counts) × IsTallied r) (ok-eq same)
      ((
        unfold deep_report in count_report_iff manifest counts,
        IsTallied-deep_report digests columns (count_report manifest counts)
            (IsTallied-count_report manifest counts),
      ))
