-- ===== src/Retention/Examples.antt =====
-- Runs of engine/src/retention.rs, and its theorems at concrete inputs.
use mysql_ssh_db_sync.Prelude.{
  ℕ, ◌+◌, ◌*◌, ◌≤◌, ◌≡◌, ◌≢◌, ◌↔◌, refl, ◌⊎◌, true, Option, none, some, List, [], ◌∷◌, ◌++◌, All,
  IsSorted, sort, arith,
}
use mathlib.Core.List.{Perm}
use mysql_ssh_db_sync.Retention.{
  RetentionPolicy, RetentionCandidate, RetentionPlan, newer_first, day_ns, age_cutoff,
  plan_retention, is_enabled, partition_from, sum_bytes, plan_sorted,
}
use mysql_ssh_db_sync.Retention.Limits.{IsFull, IsExpired, ReachesBehind}
use mysql_ssh_db_sync.Retention.Plan.{
  sum_sizes, tail_of, plan_retention-append, plan_retention_newest, plan_retention_justified,
  plan_retention_bytes, plan_retention_panics,
}

-- A candidate of a day, counted from the earliest instant.
abbrev on_day : ℕ → ℕ → RetentionCandidate
on_day day size = record { path = day ∷ []; created_at = day * day_ns; size_bytes = size }

abbrev four : List RetentionCandidate
four = on_day 97 30 ∷ on_day 100 10 ∷ on_day 60 40 ∷ on_day 99 20 ∷ []

abbrev now : ℕ
now = 100 * day_ns

abbrev two_or_month : RetentionPolicy
two_or_month = record { keep_last = some 2; max_age_days = some 30 }

abbrev two_kept : RetentionPlan
two_kept = record {
  keep = on_day 100 10 ∷ on_day 99 20 ∷ [];
  delete = on_day 97 30 ∷ on_day 60 40 ∷ [];
  bytes_reclaimed = 70;
}

two_kept_lem : plan_retention four two_or_month now ≡ some two_kept
unfolding plan_retention plan_sorted sort age_cutoff is_enabled partition_from sum_bytes
two_kept_lem = refl

plan_retention-append_example :
    (two_kept.keep ++ two_kept.delete ≡ sort newer_first four)
    × Perm (two_kept.keep ++ two_kept.delete) four
    × IsSorted newer_first (two_kept.keep ++ two_kept.delete)
plan_retention-append_example = plan_retention-append four two_or_month now two_kept two_kept_lem

plan_retention_newest_example :
    (newest : RetentionCandidate) × (two_kept.keep ≡ newest ∷ tail_of two_kept.keep)
    × All (λ c. c.created_at ≤ newest.created_at) (tail_of two_kept.keep ++ two_kept.delete)
plan_retention_newest_example =
    plan_retention_newest four two_or_month now two_kept (λ e. cc) two_kept_lem

abbrev month_ago : Option ℕ
month_ago = some (70 * day_ns)

plan_retention_justified_example :
    IsFull two_or_month two_kept.keep ⊎ IsExpired two_or_month now (97 * day_ns)
plan_retention_justified_example =
    plan_retention_justified four two_or_month now two_kept (on_day 97 30) (on_day 60 40 ∷ [])
      two_kept_lem refl

plan_retention_bytes_example :
    (70 ≡ sum_sizes two_kept.delete) × (70 + sum_sizes two_kept.keep ≡ sum_sizes four)
plan_retention_bytes_example =
    plan_retention_bytes four two_or_month now two_kept (omega arith) two_kept_lem

plan_retention_panics_example :
    (plan_retention four two_or_month 5 ≡ none)
    ↔ ((is_enabled two_or_month ≡ true) × (four ≢ []) × ReachesBehind two_or_month 5)
plan_retention_panics_example = plan_retention_panics four two_or_month 5
