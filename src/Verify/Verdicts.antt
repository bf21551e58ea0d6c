-- ===== src/Verify/Verdicts.antt =====
-- engine/src/verify.rs: a report passes exactly if every table that was counted has its rows.
use mysql_ssh_db_sync.Prelude.{
  ℕ, sort, ◌≡◌, ◌↔◌, ◌⊎◌, refl, ◌∙◌, true, false, Option, none, some, List, [], ◌∷◌, ◌++◌, map,
  arith, Text, if◌then◌else◌, All, is_some, sum_by, sum_by-append, sum_by-sort, lookup,
}
use mysql_ssh_db_sync.Verify.{
  TableVerification, is_failure, compared, unless_skipped, check_expected, check_schema_only,
  unexpected, count_failures, build_report, passed, table_leb, unexpected_at_destination,
}

abbrev pub Harmless : TableVerification → Type 0
Harmless t = is_failure t.verdict ≡ false

abbrev pub failure : TableVerification → ℕ
failure t = if is_failure t.verdict then 1 else 0

pub count_failures-sum_by : (ts : List TableVerification) → count_failures ts ≡ sum_by failure ts
count_failures-sum_by [] = refl
count_failures-sum_by (t ∷ ts) = ground (arith, count_failures-sum_by ts)

pub none_fails : (ts : List TableVerification) → (sum_by failure ts ≡ 0) ↔ All Harmless ts
none_fails [] = ground arith
none_fails (t ∷ ts) = ground (arith, none_fails ts)

-- What a table needs: its rows, or a reason why they were not counted.
abbrev pub HasRows : List (Text × ℕ) → List (Text × Text) → Text × ℕ → Type 0
HasRows actual skips (name, rows) =
    (is_some (lookup name skips) ≡ true) ⊎ (lookup name actual ≡ some rows)

abbrev pub IsEmptyTable : List (Text × ℕ) → Text → Type 0
IsEmptyTable actual name = lookup name actual ≡ some 0

compared_iff :
    (source : ℕ) (o : Option ℕ) → (is_failure (compared source o) ≡ false) ↔ (o ≡ some source)
unfolding is_failure
compared_iff source none = ground arith
compared_iff source (some n) = ground arith

skipped_iff :
    (reason : Option Text) (source : ℕ) (o : Option ℕ)
    → (is_failure (unless_skipped reason (compared source o)) ≡ false)
      ↔ ((is_some reason ≡ true) ⊎ (o ≡ some source))
skipped_iff none source o = ground (arith, compared_iff source o)
skipped_iff (some reason) source o = unfold is_failure in ground arith

expected_iff :
    (actual : List (Text × ℕ)) (skips : List (Text × Text)) (expected : List (Text × ℕ))
    → All Harmless (map (check_expected actual skips) expected)
      ↔ All (HasRows actual skips) expected
expected_iff actual skips [] = ground arith
expected_iff actual skips ((name, n) ∷ expected) =
    let here = skipped_iff (lookup name skips) n (lookup name actual) in
    let rest = expected_iff actual skips expected in
    ((λ h. (here.0 h.0, rest.0 h.1)), (λ h. (here.1 h.0, rest.1 h.1)))

schema_only_iff :
    (actual : List (Text × ℕ)) (names : List Text)
    → All Harmless (map (check_schema_only actual) names) ↔ All (IsEmptyTable actual) names
schema_only_iff actual [] = ground arith
schema_only_iff actual (name ∷ names) =
    let here = compared_iff 0 (lookup name actual) in
    let rest = schema_only_iff actual names in
    ((λ h. (here.0 h.0, rest.0 h.1)), (λ h. (here.1 h.0, rest.1 h.1)))

unexpected_harmless :
    (es : List (Text × ℕ))
    → sum_by failure (map (λ e. record { table = e.0; verdict = unexpected_at_destination }) es) ≡ 0
unfolding is_failure
unexpected_harmless [] = refl
unexpected_harmless (e ∷ es) = omega (arith, unexpected_harmless es)

-- The report passes if and only if every expected table was skipped for a reason or has exactly as
-- many rows at the destination as at the source, and every table without data is there and is
-- empty; a table that is not expected never fails it, in whatever order the tables stand.
pub passed-build_report :
    (expected actual : List (Text × ℕ)) (schema_only : List Text) (skips : List (Text × Text))
    → (passed (build_report expected actual schema_only skips) ≡ true)
      ↔ (All (HasRows actual skips) expected × All (IsEmptyTable actual) schema_only)
unfolding build_report
passed-build_report expected actual schema_only skips =
    let checked = map (check_expected actual skips) expected in
    let empties = map (check_schema_only actual) schema_only in
    let extra = unexpected actual expected schema_only in
    let total =
      count_failures-sum_by (sort table_leb (checked ++ (empties ++ extra)))
      ∙ sum_by-sort table_leb failure (checked ++ (empties ++ extra))
      ∙ sum_by-append failure checked (empties ++ extra) in
    let rest = sum_by-append failure empties extra in
    let harmless : sum_by failure extra ≡ 0 = unexpected_harmless _ in
    let e = expected_iff actual skips expected in
    let s = schema_only_iff actual schema_only in
    let ce = none_fails checked in
    let cs = none_fails empties in
    (
      (λ h. (
        e.0 (ce.0 (ground (arith, h, total, rest, harmless))),
        s.0 (cs.0 (ground (arith, h, total, rest, harmless))),
      )),
      (λ h. ground (arith, total, rest, harmless, ce.1 (e.1 h.0), cs.1 (s.1 h.1))),
    )
