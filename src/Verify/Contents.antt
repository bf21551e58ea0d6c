-- ===== src/Verify/Contents.antt =====
-- engine/src/verify.rs: what the deeper comparison changes, and what it may not change.
use mysql_ssh_db_sync.Prelude.{
  ℕ, ◌≡◌, ◌≢◌, ◌↔◌, ◌⊎◌, inl, inr, refl, true, false, Option, none, some, List, [], ◌∷◌, map, arith,
  Text, All, lookup, is_empty, contains, all, ==_iff, list_eq, nat_eq,
}
use mysql_ssh_db_sync.Verify.{
  TableVerdict, TableVerification, VerificationReport, DeepComparison, match, row_count_mismatch,
  missing_at_destination, unexpected_at_destination, skipped, content_mismatch, schema_mismatch,
  is_failure, lacking, schema_verdict, digest_verdict, first_verdict, deep_verdict, refined,
  refine_entry, refine_with_contents, passed,
}
use mysql_ssh_db_sync.Verify.Verdicts.{Harmless, count_failures-sum_by, none_fails}

-- Both sides have the same columns, as far as both are known.
abbrev pub SameColumns : Option (List Text) → Option (List Text) → Type 0
SameColumns (some src) (some dst) =
    (all (contains dst) src ≡ true) × (all (contains src) dst ≡ true)
SameColumns _ _ = Unit

-- Both sides have the same digest, as far as both could be taken.
abbrev pub SameDigest : Option (Option Text) → Option (Option Text) → Type 0
SameDigest (some (some src)) (some (some dst)) = src ≡ dst
SameDigest _ _ = Unit

abbrev pub Agrees : DeepComparison → Text → Type 0
Agrees deep name =
    SameColumns (lookup name deep.source_columns) (lookup name deep.dest_columns)
    × SameDigest (lookup name deep.source_digests) (lookup name deep.dest_digests)

-- A verdict that is no failure, and no match that the evidence contradicts.
abbrev pub Stands : DeepComparison → TableVerification → Type 0
Stands deep t = (is_failure t.verdict ≡ false) × ((t.verdict ≢ match) ⊎ Agrees deep t.table)

lacking_iff :
    (xs ys : List Text) → (is_empty (lacking xs ys) ≡ true) ↔ (all (contains ys) xs ≡ true)
lacking_iff [] ys = ground arith
lacking_iff (x ∷ xs) ys = ground (arith, lacking_iff xs ys)

digest_iff :
    (rows : Option ℕ) (src dst : Option (Option Text))
    → (is_failure (digest_verdict rows src dst) ≡ false) ↔ SameDigest src dst
unfolding is_failure
digest_iff rows none dst = ground arith
digest_iff rows (some none) dst = ground arith
digest_iff rows (some (some a)) none = ground arith
digest_iff rows (some (some a)) (some none) = ground arith
digest_iff rows (some (some a)) (some (some b)) = ground (arith, ==_iff a b)

columns_iff :
    (src dst : Option (List Text)) (verdict : TableVerdict)
    → (is_failure (first_verdict (schema_verdict src dst) verdict) ≡ false)
      ↔ (SameColumns src dst × (is_failure verdict ≡ false))
unfolding is_failure
columns_iff none dst verdict = ground arith
columns_iff (some a) none verdict = ground arith
columns_iff (some a) (some b) verdict = ground (arith, lacking_iff a b, lacking_iff b a)

deep_iff :
    (deep : DeepComparison) (name : Text)
    → (is_failure (deep_verdict deep name) ≡ false) ↔ Agrees deep name
deep_iff deep name = ground (
  arith,
  columns_iff (lookup name deep.source_columns) (lookup name deep.dest_columns) (
      digest_verdict (lookup name deep.row_counts) (lookup name deep.source_digests)
        (lookup name deep.dest_digests)),
  digest_iff (lookup name deep.row_counts) (lookup name deep.source_digests)
      (lookup name deep.dest_digests),
)

refined_iff :
    (deep : DeepComparison) (name : Text) (verdict : TableVerdict)
    → (is_failure (refined deep name verdict) ≡ false)
      ↔ ((is_failure verdict ≡ false) × ((verdict ≢ match) ⊎ Agrees deep name))
unfolding is_failure
refined_iff deep name match =
    let d = deep_iff deep name in
    (
      (λ h. (refl, inr (d.0 h))),
      (λ h. elim h.1 [ inl ne ↦ absurd (ne refl) | inr agrees ↦ d.1 agrees ]),
    )
refined_iff deep name (row_count_mismatch a b) = ground arith
refined_iff deep name missing_at_destination = ground arith
refined_iff deep name unexpected_at_destination = ((λ h. (refl, inl (λ e. cc))), (λ h. refl))
refined_iff deep name (skipped reason) = ((λ h. (refl, inl (λ e. cc))), (λ h. refl))
refined_iff deep name (content_mismatch n) = ground arith
refined_iff deep name (schema_mismatch a b) = ground arith

entries_iff :
    (deep : DeepComparison) (ts : List TableVerification)
    → All Harmless (map (refine_entry deep) ts) ↔ All (Stands deep) ts
entries_iff deep [] = ground arith
entries_iff deep (t ∷ ts) =
    let here = refined_iff deep t.table t.verdict in
    let rest = entries_iff deep ts in
    ((λ h. (here.0 h.0, rest.0 h.1)), (λ h. (here.1 h.0, rest.1 h.1)))

-- After the deeper comparison the report passes if and only if no table had failed before, and
-- every table whose rows matched has the same columns and the same digest on both sides, as far as
-- both are known. Evidence that is missing on a side never fails a table.
pub passed-refine_with_contents :
    (report : VerificationReport) (deep : DeepComparison)
    → (passed (refine_with_contents report deep) ≡ true) ↔ All (Stands deep) report.tables
unfolding refine_with_contents
passed-refine_with_contents report deep =
    let ts = map (refine_entry deep) report.tables in
    let total = count_failures-sum_by ts in
    let zero' = none_fails ts in
    let stands = entries_iff deep report.tables in
    (
      (λ h. stands.0 (zero'.0 (ground (arith, h, total)))),
      (λ h. ground (arith, total, zero'.1 (stands.1 h))),
    )
