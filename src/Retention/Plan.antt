-- ===== src/Retention/Plan.antt =====
-- What `plan_retention` guarantees (engine/src/retention.rs).
use mysql_ssh_db_sync.Prelude.{
  ℕ, ◌+◌, ◌^◌, ◌≤◌, ◌<◌, ◌≡◌, ◌≢◌, ◌↔◌, refl, ap, subst, ◌⊎◌, inl, inr, true, false, Option, none,
  some, List, [], ◌∷◌, ◌++◌, is_empty, sort, IsSorted, sort-IsSorted, sort-perm, sort-ne-nil,
  sort-ne-nil_of, ◌∙◌, sum_by, sum_by-sort, sum_by-append, leb→le, All-map, All, length, arith,
  Bool-cases, Option-cases, append-nil,
}
use mathlib.Core.List.{Perm}
use mysql_ssh_db_sync.Retention.{
  RetentionPolicy, RetentionCandidate, RetentionPlan, newer_first, age_cutoff, over_count, too_old,
  partition_from, sum_bytes, plan_sorted, plan_retention, is_enabled,
}
use mysql_ssh_db_sync.Retention.Limits.{
  IsFull, IsExpired, ReachesBehind, over_count-IsFull, too_old-IsExpired, age_cutoff-ReachesBehind,
}
use mysql_ssh_db_sync.Retention.Partition.{partition_append, partition_deleted, limit}

abbrev untouched : List RetentionCandidate → RetentionPlan
untouched cs = record { keep = cs; delete = []; bytes_reclaimed = 0 }

abbrev pruned : Option ℕ → Option ℕ → List RetentionCandidate → RetentionPlan
pruned keep_last cutoff cs =
    let (keep, delete) = partition_from keep_last cutoff 0 cs in
    record { keep = keep; delete = delete; bytes_reclaimed = sum_bytes delete }

-- The sizes of some candidates together, with no wrap.
abbrev pub sum_sizes : List RetentionCandidate → ℕ
sum_sizes = sum_by (λ c. c.size_bytes)

sum_bytes_fits :
    (cs : List RetentionCandidate) → sum_sizes cs < 2 ^ 64 → sum_bytes cs ≡ sum_sizes cs
unfolding sum_bytes
sum_bytes_fits [] h = refl
sum_bytes_fits (c ∷ cs) h = omega (arith, sum_bytes_fits cs (omega arith))

data Outcome (policy : RetentionPolicy) (now : ℕ) (cs : List RetentionCandidate)
    : RetentionPlan → Type 0 where
  left_alone : (is_enabled policy ≡ false) ⊎ (cs ≡ []) → Outcome policy now cs (untouched cs)
  cut :
      (cutoff : Option ℕ)
      → age_cutoff policy.max_age_days now ≡ some cutoff
      → is_empty cs ≡ false
      → Outcome policy now cs (pruned policy.keep_last cutoff cs)

-- The two ways to a plan.
plan_sorted-Outcome :
    (cs : List RetentionCandidate) (policy : RetentionPolicy) (now : ℕ) (plan : RetentionPlan)
    → plan_sorted cs policy now ≡ some plan
    → Outcome policy now cs plan
unfolding plan_sorted
plan_sorted-Outcome [] policy now plan h =
    let same : untouched [] ≡ plan = ground arith in
    subst (Outcome policy now []) same (left_alone (inr refl))
plan_sorted-Outcome (c ∷ cs) policy now plan h = elim (Bool-cases (is_enabled policy)) [
  | inl on ↦ elim (Option-cases (age_cutoff policy.max_age_days now)) [
    | inl over ↦ absurd (ground arith)
    | inr (cutoff, e) ↦
        let same : pruned policy.keep_last cutoff (c ∷ cs) ≡ plan = ground arith in
        subst (Outcome policy now (c ∷ cs)) same (cut cutoff e refl)
  ]
  | inr off ↦
      let same : untouched (c ∷ cs) ≡ plan = ground arith in
      subst (Outcome policy now (c ∷ cs)) same (left_alone (inl off))
]

-- A plan keeps the newest and deletes the oldest.
Outcome-append :
    {policy : RetentionPolicy} {now : ℕ} {cs : List RetentionCandidate} {plan : RetentionPlan}
    → IsSorted newer_first cs
    → Outcome policy now cs plan
    → plan.keep ++ plan.delete ≡ cs
Outcome-append {cs = cs} s (left_alone why) = append-nil cs
Outcome-append {policy = policy} {cs = cs} s (cut cutoff e full) =
    partition_append policy.keep_last cutoff 0 cs s

-- The limit of `keep_last`, which is never less than one.
abbrev pub WithinCount : Option ℕ → List RetentionCandidate → Type 0
WithinCount none keep = Unit
WithinCount (some n) keep = length keep ≤ limit none n

abbrev pub tail_of : List RetentionCandidate → List RetentionCandidate
tail_of [] = []
tail_of (c ∷ cs) = cs

-- The newest candidate, and what is older than it.
Outcome-newest :
    {policy : RetentionPolicy} {now : ℕ} {plan : RetentionPlan} (c : RetentionCandidate)
    (cs : List RetentionCandidate)
    → Outcome policy now (c ∷ cs) plan
    → plan.keep ≡ c ∷ tail_of plan.keep
unfolding partition_from
Outcome-newest c cs (left_alone why) = refl
Outcome-newest c cs (cut cutoff e full) = refl

newest_of :
    {policy : RetentionPolicy} {now : ℕ} (cs : List RetentionCandidate)
    → cs ≢ []
    → (plan : RetentionPlan) → IsSorted newer_first cs
    → Outcome policy now cs plan
    → (newest : RetentionCandidate) × (plan.keep ≡ newest ∷ tail_of plan.keep)
      × All (λ c. c.created_at ≤ newest.created_at) (tail_of plan.keep ++ plan.delete)
newest_of [] full plan s o = absurd (full refl)
newest_of (c ∷ cs) full plan s o =
    let first = Outcome-newest c cs o in
    let whole = Outcome-append s o in
    let rest : tail_of plan.keep ++ plan.delete ≡ cs = ap tail_of (rw first at whole) in
    (c, first, rw rest (All-map _ (λ d. d.created_at ≤ c.created_at) (λ d h. leb→le _ _ h) cs s.0))

bytes_of :
    {policy : RetentionPolicy} {now : ℕ} (cs : List RetentionCandidate) (plan : RetentionPlan)
    → sum_sizes cs < 2 ^ 64
    → IsSorted newer_first cs
    → Outcome policy now cs plan
    → (plan.bytes_reclaimed ≡ sum_sizes plan.delete)
      × (plan.bytes_reclaimed + sum_sizes plan.keep ≡ sum_sizes cs)
bytes_of cs plan fits s (left_alone why) = (refl, omega arith)
bytes_of {policy = policy} cs plan fits s (cut cutoff e full) =
    let (keep, delete) = partition_from policy.keep_last cutoff 0 cs in
    let parts : sum_sizes (keep ++ delete) ≡ sum_sizes cs =
      ap sum_sizes (partition_append policy.keep_last cutoff 0 cs s) in
    let both = sum_by-append (λ c. c.size_bytes) keep delete in
    let exact : sum_bytes delete ≡ sum_sizes delete =
      sum_bytes_fits delete (omega (arith, parts, both)) in
    (exact, omega (arith, parts, both, exact))

panics_of :
    (cs : List RetentionCandidate) (policy : RetentionPolicy) (now : ℕ)
    → plan_sorted cs policy now ≡ none
    → (is_enabled policy ≡ true) × (cs ≢ []) × (age_cutoff policy.max_age_days now ≡ none)
unfolding plan_sorted
panics_of [] policy now h = absurd (ground arith)
panics_of (c ∷ cs) policy now h = (ground arith, λ e. cc, ground arith)

of_panics :
    (cs : List RetentionCandidate) (policy : RetentionPolicy) (now : ℕ)
    → is_enabled policy ≡ true
    → cs ≢ []
    → age_cutoff policy.max_age_days now ≡ none
    → plan_sorted cs policy now ≡ none
unfolding plan_sorted
of_panics [] policy now on full e = absurd (full refl)
of_panics (c ∷ cs) policy now on full e = ground arith

Outcome-justified :
    {policy : RetentionPolicy} {now : ℕ} {cs : List RetentionCandidate} {plan : RetentionPlan}
    → IsSorted newer_first cs
    → Outcome policy now cs plan
    → (d : RetentionCandidate) (rest : List RetentionCandidate) → plan.delete ≡ d ∷ rest
    → IsFull policy plan.keep ⊎ IsExpired policy now d.created_at
Outcome-justified s (left_alone why) d rest h = cc
Outcome-justified {policy = policy} {now = now} {cs = cs} {plan = plan} s (cut cutoff e full) d rest
      h =
    let gone = partition_deleted policy.keep_last cutoff 0 cs d rest s h in
    let why : (over_count policy.keep_last (length (partition_from policy.keep_last cutoff 0 cs).0)
          ≡ true)
        ⊎ (too_old cutoff d.created_at ≡ true) =
      ground (arith, gone) in
    elim why [
      | inl full' ↦ inl (over_count-IsFull policy.keep_last _ full')
      | inr old ↦ inr (too_old-IsExpired policy.max_age_days cutoff now d.created_at e old)
    ]

module _ (candidates : List RetentionCandidate) (policy : RetentionPolicy) (now : ℕ) where
  newest_first-IsSorted : IsSorted newer_first (sort newer_first candidates)
  newest_first-IsSorted =
      sort-IsSorted newer_first (λ x y h. ground arith) (λ x y z h k. ground arith) candidates

  outcome :
      (plan : RetentionPlan)
      → plan_retention candidates policy now ≡ some plan
      → Outcome policy now (sort newer_first candidates) plan
  unfolding plan_retention
  outcome plan h = plan_sorted-Outcome (sort newer_first candidates) policy now plan h

  -- What is kept, followed by what is deleted, is the list of all candidates sorted newest first:
  -- every candidate has exactly one of the two fates, and no deleted one is newer than a kept one.
  pub plan_retention-append :
      (plan : RetentionPlan)
      → plan_retention candidates policy now ≡ some plan
      → (plan.keep ++ plan.delete ≡ sort newer_first candidates)
        × Perm (plan.keep ++ plan.delete) candidates
        × IsSorted newer_first (plan.keep ++ plan.delete)
  plan_retention-append plan h =
      let whole = Outcome-append newest_first-IsSorted (outcome plan h) in
      rw whole (refl, sort-perm newer_first candidates, newest_first-IsSorted)

  -- If there is any candidate, a plan keeps the newest one: the first that is kept is at least as
  -- recent as every other candidate, kept or deleted.
  pub plan_retention_newest :
      (plan : RetentionPlan)
      → candidates ≢ []
      → plan_retention candidates policy now ≡ some plan
      → (newest : RetentionCandidate) × (plan.keep ≡ newest ∷ tail_of plan.keep)
        × All (λ c. c.created_at ≤ newest.created_at) (tail_of plan.keep ++ plan.delete)
  plan_retention_newest plan some_left h =
      newest_of (sort newer_first candidates) (sort-ne-nil newer_first candidates some_left) plan
        newest_first-IsSorted (outcome plan h)

  -- If anything is deleted, then the newest deleted candidate breaks a rule: either as many
  -- candidates are kept as `keep_last` asks for and at least one, or it was made more than
  -- `max_age_days` days before now.
  pub plan_retention_justified :
      (plan : RetentionPlan) (d : RetentionCandidate) (rest : List RetentionCandidate)
      → plan_retention candidates policy now ≡ some plan
      → plan.delete ≡ d ∷ rest
      → IsFull policy plan.keep ⊎ IsExpired policy now d.created_at
  plan_retention_justified plan d rest h gone =
      Outcome-justified newest_first-IsSorted (outcome plan h) d rest gone

  -- If the sizes of all candidates fit in 64 bits together, the bytes reclaimed are exactly the sizes
  -- of the deleted candidates, and with those kept they make up the total.
  pub plan_retention_bytes :
      (plan : RetentionPlan)
      → sum_sizes candidates < 2 ^ 64
      → plan_retention candidates policy now ≡ some plan
      → (plan.bytes_reclaimed ≡ sum_sizes plan.delete)
        × (plan.bytes_reclaimed + sum_sizes plan.keep ≡ sum_sizes candidates)
  plan_retention_bytes plan fits h =
      let total = sum_by-sort newer_first (λ c. c.size_bytes) candidates in
      let split =
        bytes_of (sort newer_first candidates) plan (omega (arith, total)) newest_first-IsSorted
          (outcome plan h) in
      (split.0, split.1 ∙ total)

  -- Planning fails, where the code panics, exactly if the policy is enabled, there is a candidate,
  -- and `max_age_days` days before now is behind the earliest representable instant.
  pub plan_retention_panics :
      (plan_retention candidates policy now ≡ none)
      ↔ ((is_enabled policy ≡ true) × (candidates ≢ []) × ReachesBehind policy now)
  unfolding plan_retention
  plan_retention_panics =
      let reach = age_cutoff-ReachesBehind policy.max_age_days now in
      (
        λ h.
            let why = panics_of (sort newer_first candidates) policy now h in
            (why.0, sort-ne-nil_of newer_first candidates why.1, reach.0 why.2),
        λ why.
            of_panics (sort newer_first candidates) policy now why.0
              (sort-ne-nil newer_first candidates why.1) (reach.1 why.2),
      )
