-- ===== src/Cron/Next.antt =====
-- The next and the last occurrence of a cron expression (engine/src/cron.rs, `next_after_in` and
-- `prev_at_or_before_in`).
use mysql_ssh_db_sync.Prelude.{
  ℕ, suc, ◌+◌, ◌-◌, ◌*◌, ◌/◌, ◌%◌, ◌≤◌, ◌<◌, ◌≡◌, sym, subst, inl, inr, true, false, Option, none,
  some, ltb, Bool-cases, forward, backward, gather_nothing, gather_found, arith,
}
use mysql_ssh_db_sync.Cron.{
  Clock, CronExpression, resolve_in, matches, scan_days, scan, next_after_in, prev_at_or_before_in,
  max_scan_days,
}
use mysql_ssh_db_sync.Cron.Days.{fires}
use mysql_ssh_db_sync.Cron.Scan.{
  clock_of, through, days_ahead, days_back, first_forward, first_backward,
}

not_below : (a b : ℕ) → ltb a b ≡ false → b ≤ a
not_below a b h = ground arith

some-eq : {A : Type 0} {a b : A} → some a ≡ some b → a ≡ b
some-eq h = cc

module _ (clock : Clock) (e : CronExpression) where
  -- A wall-clock minute that the expression names and that the clock shows at an instant.
  abbrev pub NamedMinute : ℕ → ℕ → Type 0
  NamedMinute wall at = (matches clock e wall ≡ true) × (resolve_in clock wall ≡ some at)

  fires-NamedMinute : (wall at : ℕ) → fires clock e wall ≡ some at → NamedMinute wall at
  fires-NamedMinute wall at h = elim (Bool-cases (matches clock e wall)) [
    | inl yes' ↦ (yes', rw yes' at h)
    | inr no' ↦ absurd (let wrong = rw no' at h in cc)
  ]

  -- No minute between is named and shown.
  abbrev pub NoneBetween : ℕ → ℕ → Type 0
  NoneBetween low high = (v : ℕ) → low ≤ v → v < high → fires clock e v ≡ none

  -- The first minute behind which the scan does not look.
  abbrev pub horizon : ℕ → ℕ
  horizon start = (start / 1440 + days_ahead clock e (start / 1440) max_scan_days) * 1440

  -- What `scan` answers, going forward from a minute.
  abbrev pub IsNextFrom : ℕ → Option ℕ → Type 0
  IsNextFrom start (some at) =
      (wall : ℕ) × (start ≤ wall) × NamedMinute wall at × NoneBetween start wall
  IsNextFrom start none = NoneBetween start (horizon start)

  scan-IsNextFrom :
      (start : ℕ) → start / 1440 ≤ clock.last_date → IsNextFrom start (scan clock e start forward)
  unfolding scan
  scan-IsNextFrom start h =
      of_search (scan_days clock e forward (some (clock_of start)) (start / 1440) 1600)
        (first_forward clock e 1599 start h)
    where
      reach : ℕ
      reach = days_ahead clock e (start / 1440) 1600 * 1440 - start % 1440

      of_search :
          (found : Option ℕ) → found ≡ through clock e forward start reach → IsNextFrom start found
      of_search none k =
          λ v a b. gather_nothing (fires clock e) forward start reach (sym k) v a (ground arith)
      of_search (some at) k =
          let (wall, (a, b, named, first)) =
            gather_found (fires clock e) forward start reach at (sym k) in
          (wall, a, fires-NamedMinute wall at named, λ v p q. first v p (omega (arith, q, b)) q)

  -- The first minute that the backward scan looks at.
  abbrev pub back_horizon : ℕ → ℕ
  back_horizon start = (suc (start / 1440) - days_back clock e (start / 1440) max_scan_days) * 1440

  -- What `scan` answers, going back from a minute.
  abbrev pub IsLastUpTo : ℕ → Option ℕ → Type 0
  IsLastUpTo start (some at) =
      (wall : ℕ) × (wall ≤ start) × NamedMinute wall at × NoneBetween (wall + 1) (start + 1)
  IsLastUpTo start none = NoneBetween (back_horizon start) (start + 1)

  scan-IsLastUpTo : (start : ℕ) → IsLastUpTo start (scan clock e start backward)
  unfolding scan
  scan-IsLastUpTo start =
      of_search (scan_days clock e backward (some (clock_of start)) (start / 1440) 1600)
        (first_backward clock e 1599 start)
    where
      low : ℕ
      low = back_horizon start

      reach : ℕ
      reach = (days_back clock e (start / 1440) 1600 - 1) * 1440 + start % 1440 + 1

      ends : low + reach ≡ start + 1
      ends = ground arith

      of_search :
          (found : Option ℕ) → found ≡ through clock e backward low reach → IsLastUpTo start found
      of_search none k = λ v a b.
          gather_nothing (fires clock e) backward low reach (sym k) v a (omega (arith, ends, b))
      of_search (some at) k =
          let (wall, (a, b, named, last)) =
            gather_found (fires clock e) backward low reach at (sym k) in
          (
            wall,
            omega (arith, ends, b),
            fires-NamedMinute wall at named,
            λ v p q. last v (omega (arith, a, p)) (omega (arith, ends, q)) (omega (arith, p)),
          )

-- Unless it panics, `next_after` answers with the first wall-clock minute behind that of `after` which
-- the expression names and the clock shows, and with its instant; with nothing only if there is no
-- such minute in the 1600 days from the first one's on, or up to the last date. On a clock that is
-- set back, an instant of the first pass can be the answer in the second.
pub next_after_in-IsNextFrom :
    (clock : Clock) (e : CronExpression) (after : ℕ) (found : Option ℕ)
    → next_after_in clock e after ≡ some found
    → IsNextFrom clock e (clock.wall_clock after + 1) found
unfolding next_after_in
next_after_in-IsNextFrom clock e after found h =
    elim (Bool-cases (ltb clock.last_date ((clock.wall_clock after + 1) / 1440))) [
      | inl behind ↦ absurd (let wrong = rw behind at h in cc)
      | inr inside ↦
          let same : scan clock e (clock.wall_clock after + 1) forward ≡ found =
            some-eq (rw inside at h) in
          subst (IsNextFrom clock e (clock.wall_clock after + 1)) same
            (scan-IsNextFrom clock e (clock.wall_clock after + 1) (not_below _ _ inside))
    ]

-- `prev_at_or_before` answers with the last wall-clock minute up to that of `at` which the expression
-- names and the clock shows, and with its instant; with nothing only if there is no such minute in
-- the 1600 days up to it. On a clock that is set back, an instant of the first pass whose minute is
-- behind that of `at` is not looked at.
pub prev_at_or_before_in-IsLastUpTo :
    (clock : Clock) (e : CronExpression) (at : ℕ)
    → IsLastUpTo clock e (clock.wall_clock at) (prev_at_or_before_in clock e at)
unfolding prev_at_or_before_in
prev_at_or_before_in-IsLastUpTo clock e at = scan-IsLastUpTo clock e (clock.wall_clock at)
