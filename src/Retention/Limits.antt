-- ===== src/Retention/Limits.antt =====
-- What the limits of a policy mean, and how `plan_retention` tests them (engine/src/retention.rs).
use mysql_ssh_db_sync.Prelude.{
  ℕ, ◌+◌, ◌-◌, ◌*◌, ◌≤◌, ◌<◌, ◌≡◌, ◌↔◌, refl, sym, subst, inl, inr, true, Option, none, some, List,
  ltb, lt→ltb, length, arith, Bool-cases,
}
use mysql_ssh_db_sync.Retention.{
  RetentionPolicy, RetentionCandidate, day_ns, age_cutoff, over_count, too_old,
}

some-eq : {A : Type 0} {a b : A} → some a ≡ some b → a ≡ b
some-eq h = cc

-- As many are kept as the policy asks for, and at least one.
abbrev pub IsFull : RetentionPolicy → List RetentionCandidate → Type 0
IsFull policy keep = (n : ℕ) × (policy.keep_last ≡ some n) × (n ≤ length keep) × (1 ≤ length keep)

-- An instant is more days back than the policy allows.
abbrev pub IsExpired : RetentionPolicy → ℕ → ℕ → Type 0
IsExpired policy now at =
    (days : ℕ) × (policy.max_age_days ≡ some days) × (at + days * day_ns < now)

pub over_count-IsFull :
    (keep_last : Option ℕ) (kept : ℕ)
    → over_count keep_last kept ≡ true
    → (n : ℕ) × (keep_last ≡ some n) × (n ≤ kept) × (1 ≤ kept)
over_count-IsFull none kept h = cc
over_count-IsFull (some n) kept h = (n, refl, ground (arith, h), ground (arith, h))

pub too_old-IsExpired :
    (max_age_days cutoff : Option ℕ) (now at : ℕ)
    → age_cutoff max_age_days now ≡ some cutoff
    → too_old cutoff at ≡ true
    → (days : ℕ) × (max_age_days ≡ some days) × (at + days * day_ns < now)
unfolding age_cutoff
too_old-IsExpired none cutoff now at e h =
    let same : none ≡ cutoff = some-eq e in
    absurd
      (let wrong : too_old none at ≡ true = subst (λ c. too_old c at ≡ true) (sym same) h in cc)
too_old-IsExpired (some days) cutoff now at e h = elim (Bool-cases (ltb now (days * day_ns))) [
  | inl over ↦ absurd (let wrong = rw over at e in cc)
  | inr inside ↦
      let same : some (now - days * day_ns) ≡ cutoff = some-eq (rw inside at e) in
      let old : too_old (some (now - days * day_ns)) at ≡ true =
        subst (λ c. too_old c at ≡ true) (sym same) h in
      (days, refl, ground (arith, inside, old))
]

-- The age limit reaches back behind the earliest instant.
abbrev pub ReachesBehind : RetentionPolicy → ℕ → Type 0
ReachesBehind policy now = (days : ℕ) × (policy.max_age_days ≡ some days) × (now < days * day_ns)

pub age_cutoff-ReachesBehind :
    (max_age_days : Option ℕ) (now : ℕ)
    → (age_cutoff max_age_days now ≡ none)
      ↔ ((days : ℕ) × (max_age_days ≡ some days) × (now < days * day_ns))
unfolding age_cutoff
age_cutoff-ReachesBehind none now = (λ h. cc, λ (days, e, behind). cc)
age_cutoff-ReachesBehind (some days) now = (
  λ h. (days, refl, ground (arith, h)),
  λ (d, e, behind).
      let same : days ≡ d = some-eq e in
      let over : ltb now (days * day_ns) ≡ true = lt→ltb _ _ (rw same behind) in rw over refl,
)
