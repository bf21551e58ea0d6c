-- ===== src/Restore/Names.antt =====
-- How a restore finds an unused name (engine/src/restore/mod.rs, `resolve_free`).
use mysql_ssh_db_sync.Prelude.{
  ℕ, zero, suc, ◌+◌, ◌<◌, ◌≡◌, refl, ◌⊎◌, inl, inr, Bool, true, false, Option, none, some, List,
  Text, contains, list_eq, nat_eq, Bool-cases, arith,
}
use native.Mathlib.Nat.{add-zero}
use mysql_ssh_db_sync.Restore.{
  TargetNaming, new_timestamped, naming_window_secs, resolve, find_free, resolve_free,
}

module _ (stamp : ℕ → Text) (naming : TargetNaming) (taken : List Text) where
  -- Whether the name of an instant is in use.
  abbrev pub in_use : ℕ → Bool
  in_use at = contains taken (resolve stamp naming at)

  abbrev pub FirstFree : ℕ → ℕ → Option Text → Type 0
  FirstFree now left found =
      ((k : ℕ) × (k < left)
        × (found ≡ some (resolve stamp naming (now + k)))
        × (in_use (now + k) ≡ false)
        × ((j : ℕ) → j < k → in_use (now + j) ≡ true))
      ⊎ ((found ≡ none) × ((j : ℕ) → j < left → in_use (now + j) ≡ true))

  used_from :
      (now k : ℕ)
      → in_use now ≡ true
      → ((j : ℕ) → j < k → in_use (now + 1 + j) ≡ true)
      → (j : ℕ) → j < suc k
      → in_use (now + j) ≡ true
  used_from now k first rest zero h = rw (add-zero) first
  used_from now k first rest (suc j) h =
      let same : now + 1 + j ≡ now + suc j = omega arith in rw same at (rest j (omega arith))

  find_free_first : (now left : ℕ) → FirstFree now left (find_free stamp naming now taken left)
  unfolding find_free
  find_free_first now zero = inr (refl, λ j h. elim h [ ])
  find_free_first now (suc left) = elim (Bool-cases (in_use now)) [
    | inl used ↦ elim (find_free_first (now + 1) left) [
      | inl (k, lt, found, free, before) ↦
          let same : now + 1 + k ≡ now + suc k = omega arith in
          inl (
            suc k,
            omega arith,
            rw (used, ← same) found,
            rw same at free,
            used_from now k used before,
          )
      | inr (found, all_used) ↦ inr (rw used found, used_from now left used all_used)
    ]
    | inr free ↦ inl (0, omega arith, rw (free, add-zero), rw add-zero free, λ j h. elim h [ ])
  ]

-- A timestamped name is that of the first second, of the sixty from `now` on, whose name is not
-- taken; and there is none exactly if the names of all sixty are taken.
pub resolve_free-FirstFree :
    (stamp : ℕ → Text) (prefix : Text) (now : ℕ) (taken : List Text)
    → FirstFree stamp
        (new_timestamped prefix)
        taken
        now
        naming_window_secs
        (resolve_free stamp (new_timestamped prefix) now taken)
unfolding resolve_free
resolve_free-FirstFree stamp prefix now taken =
    find_free_first stamp (new_timestamped prefix) taken now naming_window_secs
