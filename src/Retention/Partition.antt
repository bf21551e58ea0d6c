-- ===== src/Retention/Partition.antt =====
-- The loop of a retention plan (engine/src/retention.rs, `plan_retention`).
use mysql_ssh_db_sync.Prelude.{
  ℕ, suc, ◌+◌, ◌≤◌, ◌<◌, ◌≡◌, refl, ap, inl, inr, true, false, Option, some, List, [], ◌∷◌, ◌++◌,
  nat_beq, if◌then◌else◌, IsSorted, All, length, arith, Bool-cases,
}
use mysql_ssh_db_sync.Retention.{
  RetentionCandidate, newer_first, too_old, is_deleted, partition_from,
}

module _ (keep_last cutoff : Option ℕ) where
  -- Behind a deleted candidate every older one is deleted too.
  pub partition_of_deleted :
      (index : ℕ) (c : RetentionCandidate) (cs : List RetentionCandidate)
      → is_deleted keep_last cutoff index c ≡ true
      → IsSorted newer_first (c ∷ cs)
      → (partition_from keep_last cutoff (suc index) cs).0 ≡ []
  unfolding partition_from
  partition_of_deleted index c [] gone s = refl
  partition_of_deleted index c (d ∷ cs) gone s =
      let next : is_deleted keep_last cutoff (suc index) d ≡ true = ground arith in
      rw next (partition_of_deleted (suc index) d cs next s.1)

  -- The deleted candidates are the oldest ones.
  pub partition_append :
      (index : ℕ) (cs : List RetentionCandidate)
      → IsSorted newer_first cs
      → (partition_from keep_last cutoff index cs).0 ++ (partition_from keep_last cutoff index cs).1
        ≡ cs
  unfolding partition_from
  partition_append index [] s = refl
  partition_append index (c ∷ cs) s = elim (Bool-cases (is_deleted keep_last cutoff index c)) [
    | inl gone ↦
        let none_kept = partition_of_deleted index c cs gone s in
        let rest = partition_append (suc index) cs s.1 in
        rw (gone, none_kept) (ap (◌∷◌ c) (rw none_kept at rest))
    | inr kept ↦ rw kept (ap (◌∷◌ c) (partition_append (suc index) cs s.1))
  ]

  -- The first of the list stays, and what stays behind it breaks neither rule.
  pub partition_kept :
      (index : ℕ) (cs : List RetentionCandidate)
      → All
          (λ c. too_old cutoff c.created_at ≡ false)
          (partition_from keep_last cutoff (suc index) cs).0
  unfolding partition_from
  partition_kept index [] = tt
  partition_kept index (c ∷ cs) = ground (arith, partition_kept (suc index) cs)

  -- The candidate that is deleted first stands at the index of the number of those kept.
  pub partition_deleted :
      (index : ℕ) (cs : List RetentionCandidate) (d : RetentionCandidate)
      (rest : List RetentionCandidate)
      → IsSorted newer_first cs
      → (partition_from keep_last cutoff index cs).1 ≡ d ∷ rest
      → is_deleted keep_last cutoff (index + length (partition_from keep_last cutoff index cs).0) d
        ≡ true
  unfolding partition_from
  partition_deleted index [] d rest s h = cc
  partition_deleted index (c ∷ cs) d rest s h =
      elim (Bool-cases (is_deleted keep_last cutoff index c)) [
        | inl gone ↦ ground (arith, partition_of_deleted index c cs gone s)
        | inr kept ↦ ground (arith, partition_deleted (suc index) cs d rest)
      ]

module _ (cutoff : Option ℕ) (n : ℕ) where
  abbrev pub limit : ℕ
  limit = if nat_beq n 0 then 1 else n

  pub partition_past_limit :
      (index : ℕ) (cs : List RetentionCandidate)
      → 0 < index
      → limit ≤ index
      → (partition_from (some n) cutoff index cs).0 ≡ []
  unfolding partition_from
  partition_past_limit index [] p h = refl
  partition_past_limit index (c ∷ cs) p h = ground (arith, partition_past_limit (suc index) cs)

  pub length-partition :
      (index : ℕ) (cs : List RetentionCandidate)
      → 0 < index
      → index ≤ limit
      → index + length (partition_from (some n) cutoff index cs).0 ≤ limit
  unfolding partition_from
  length-partition index [] p h = omega arith
  length-partition index (c ∷ cs) p h =
      ground (arith, length-partition (suc index) cs, partition_past_limit (suc index) cs)
