-- ===== src/Schedule/Due.antt =====
-- When a schedule is due (engine/src/schedule.rs, `due_at`).
use mysql_ssh_db_sync.Prelude.{
  ℕ, ◌+◌, ◌≤◌, ◌<◌, ◌≡◌, ◌≢◌, ◌⊎◌, inl, inr, refl, ap, subst, Bool, true, false, not, ◌&&◌, Option,
  none, some, ltb, leb, if◌then◌else◌, arith,
}
use mysql_ssh_db_sync.Cron.{Clock, prev_at_or_before_in}
use mysql_ssh_db_sync.Cron.Next.{
  NamedMinute, NoneBetween, IsLastUpTo, prev_at_or_before_in-IsLastUpTo,
}
use mysql_ssh_db_sync.Schedule.{ScheduleTimezone, Schedule, baseline, due_at}

-- The tests of `due_at` on what the scan has found.
picked :
    (enabled : Bool) (found : Option ℕ) (base now grace : ℕ) (catch_up : Bool) (at : ℕ)
    → (if not enabled then none else elim found [
      | none ↦ none
      | some occurrence ↦
          if leb occurrence base
          then none
          else if not catch_up && ltb (occurrence + grace) now
          then none
          else some occurrence
    ])
      ≡ some at
    → (enabled ≡ true) × (found ≡ some at) × (base < at) × ((catch_up ≡ true) ⊎ (now ≤ at + grace))
picked false found base now grace catch_up at h = cc
picked true none base now grace catch_up at h = cc
picked true (some t) base now grace true at h =
    let same : t ≡ at = ground arith in (refl, ap some same, ground arith, inl refl)
picked true (some t) base now grace false at h =
    let same : t ≡ at = ground arith in (refl, ap some same, ground arith, inr (ground arith))

module _ (zones : ScheduleTimezone → Clock) where
  -- An occurrence that a schedule must run for.
  abbrev pub IsDue : Schedule → ℕ → ℕ → ℕ → Type 0
  IsDue s now grace at =
      (s.enabled ≡ true)
      × (baseline s < at)
      × ((s.catch_up ≡ true) ⊎ (now ≤ at + grace))
      × ((wall : ℕ) × (wall ≤ (zones s.timezone).wall_clock now)
          × NamedMinute (zones s.timezone) s.cron wall at
          × NoneBetween (zones s.timezone) s.cron (wall + 1)
              ((zones s.timezone).wall_clock now + 1))

-- A schedule is due only while it is enabled, for an occurrence after its last run, or after its
-- creation if it has not run, and only within the grace time unless it catches up; and the occurrence
-- is the last minute up to now that its expression names and that its clock shows.
pub due_at-IsDue :
    (zones : ScheduleTimezone → Clock) (s : Schedule) (now grace at : ℕ)
    → due_at zones s now grace ≡ some at
    → IsDue zones s now grace at
unfolding due_at
due_at-IsDue zones s now grace at h =
    let clock = zones s.timezone in
    let (on, found, fresh, in_time) =
      picked s.enabled (prev_at_or_before_in clock s.cron now) (baseline s) now grace s.catch_up at
        h in
    (
      on,
      fresh,
      in_time,
      subst (IsLastUpTo clock s.cron (clock.wall_clock now)) found
          (prev_at_or_before_in-IsLastUpTo clock s.cron now),
    )

-- Once a schedule has run for an occurrence, at that instant or later, it is not due for it again,
-- whatever the time is.
pub due_at_once :
    (zones : ScheduleTimezone → Clock) (s : Schedule) (now later grace at ran : ℕ)
    → due_at zones s now grace ≡ some at
    → at ≤ ran
    → due_at zones (record s { last_run_at = some ran }) later grace ≢ some at
due_at_once zones s now later grace at ran h le again =
    let (on, fresh, in_time, minute) =
      due_at-IsDue zones (record s { last_run_at = some ran }) later grace at again in
    absurd (omega (arith, fresh, le))
