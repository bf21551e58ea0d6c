-- ===== src/Retention.antt =====
-- engine/src/retention.rs: the plan of which backup artifacts to delete.
--
-- An instant is the number of nanoseconds since the earliest one that `DateTime<Utc>` holds, so
-- that a subtraction that leaves its range, where the code panics, is `none`. A size is a `u64`,
-- and the sum of sizes wraps.
pub mod Limits
pub mod Partition
pub mod Plan
mod Examples
use mysql_ssh_db_sync.Prelude.{
  ℕ, suc, ◌+◌, ◌-◌, ◌*◌, ◌%◌, ◌^◌, Bool, true, false, not, ◌&&◌, ◌||◌, Option, none, some, List, [],
  ◌∷◌, Text, ltb, leb, nat_beq, if◌then◌else◌, is_some, is_empty, sort,
}

pub record RetentionPolicy : Type 0 where
  pub keep_last : Option ℕ
  pub max_age_days : Option ℕ

unfoldable pub is_enabled : RetentionPolicy → Bool
is_enabled p = is_some p.keep_last || is_some p.max_age_days

pub record RetentionCandidate : Type 0 where
  pub path : Text
  pub created_at : ℕ
  pub size_bytes : ℕ

pub record RetentionPlan : Type 0 where
  pub keep : List RetentionCandidate
  pub delete : List RetentionCandidate
  pub bytes_reclaimed : ℕ

-- `sort_by_key(|c| Reverse(c.created_at))`.
abbrev pub newer_first : RetentionCandidate → RetentionCandidate → Bool
newer_first a b = leb b.created_at a.created_at

abbrev pub day_ns : ℕ
day_ns = 86400000000000

-- `now - Duration::days(d)`; the outer `none` is the panic.
unfoldable pub age_cutoff : Option ℕ → ℕ → Option (Option ℕ)
age_cutoff none now = some none
age_cutoff (some d) now = if ltb now (d * day_ns) then none else some (some (now - d * day_ns))

-- `policy.keep_last.is_some_and(|n| index >= n.max(1) as usize)`.
abbrev pub over_count : Option ℕ → ℕ → Bool
over_count none index = false
over_count (some n) index = leb (if nat_beq n 0 then 1 else n) index

abbrev pub too_old : Option ℕ → ℕ → Bool
too_old none at = false
too_old (some cutoff) at = ltb at cutoff

-- The body of the loop: whether the candidate at an index is deleted.
abbrev pub is_deleted : Option ℕ → Option ℕ → ℕ → RetentionCandidate → Bool
is_deleted keep_last cutoff index c =
    not (nat_beq index 0) && (over_count keep_last index || too_old cutoff c.created_at)

-- The loop over the enumerated candidates; the result is `(keep, delete)`.
unfoldable pub partition_from :
    Option ℕ
    → Option ℕ
    → ℕ
    → List RetentionCandidate
    → List RetentionCandidate × List RetentionCandidate
partition_from keep_last cutoff index [] = ([], [])
partition_from keep_last cutoff index (c ∷ cs) =
    let (keep, delete) = partition_from keep_last cutoff (suc index) cs in
    if is_deleted keep_last cutoff index c then (keep, c ∷ delete) else (c ∷ keep, delete)

abbrev pub u64 : ℕ → ℕ
u64 n = n % 2 ^ 64

unfoldable pub sum_bytes : List RetentionCandidate → ℕ
sum_bytes [] = 0
sum_bytes (c ∷ cs) = u64 (c.size_bytes + sum_bytes cs)

-- What follows the sort.
unfoldable pub plan_sorted : List RetentionCandidate → RetentionPolicy → ℕ → Option RetentionPlan
plan_sorted candidates policy now =
    if not (is_enabled policy) || is_empty candidates
    then some (record { keep = candidates; delete = []; bytes_reclaimed = 0 })
    else elim (age_cutoff policy.max_age_days now) [
      | none ↦ none
      | some cutoff ↦
          let (keep, delete) = partition_from policy.keep_last cutoff 0 candidates in
          some (record { keep = keep; delete = delete; bytes_reclaimed = sum_bytes delete })
    ]

unfoldable pub plan_retention : List RetentionCandidate → RetentionPolicy → ℕ → Option RetentionPlan
unfolding plan_sorted
plan_retention candidates policy now = plan_sorted (sort newer_first candidates) policy now
