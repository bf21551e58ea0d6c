-- ===== src/Cron/Days.antt =====
-- The scan of one day (engine/src/cron.rs, `scan_within_day`) against the minutes of that day.
use mysql_ssh_db_sync.Prelude.{
  ℕ, ◌+◌, ◌*◌, ◌/◌, ◌%◌, ◌≤◌, ◌<◌, ◌≡◌, refl, sym, ◌∙◌, inl, inr, Bool, true, false, ◌&&◌, Option,
  none, List, map, if◌then◌else◌, Bool-cases, Direction, forward, backward, range, first_some,
  gather, gather-forward, gather-backward, gather-eq, gather-filter, gather-flat_map, gather-map,
  gather-none, gather-blocks, gather-range_eq, gather-range_shift, arith,
}
use mysql_ssh_db_sync.Cron.{
  Clock, CronExpression, resolve_in, has, day_matches, matches, hours, minutes, candidates,
  past_bound, in_order, try_candidate, scan_within_day,
}

pub gather-in_order {ℓ κ} :
    {A : Type ℓ} {B : Type κ} (dir : Direction) (f : A → Option B) (xs : List A)
    → first_some f (in_order dir xs) ≡ gather dir f xs
gather-in_order forward f xs = gather-forward f xs
gather-in_order backward f xs = gather-backward f xs

regroup :
    {A : Type 0} (past minute hour : Bool) (r : Option A)
    → (if hour then if minute then if past then none else r else none else none)
      ≡ (if past then none else if minute && (hour && true) then r else none)
regroup true true true r = refl
regroup true true false r = refl
regroup true false true r = refl
regroup true false false r = refl
regroup false true true r = refl
regroup false true false r = refl
regroup false false true r = refl
regroup false false false r = refl

idle :
    {A : Type 0} (past minute hour : Bool) (r : Option A)
    → (if past then none else if minute && (hour && false) then r else none) ≡ none
idle true minute hour r = refl
idle false true true r = refl
idle false true false r = refl
idle false false hour r = refl

module _ (clock : Clock) (e : CronExpression) where
  -- The instant of a minute, if the expression names it and the clock shows it.
  abbrev pub fires : ℕ → Option ℕ
  fires wall = if matches clock e wall then resolve_in clock wall else none

  matches_parts :
      (wall : ℕ)
      → matches clock e wall ≡ (
          has e.minute (wall % 60)
          && (has e.hour (wall / 60 % 24) && day_matches clock e (wall / 1440)))
  unfolding matches
  matches_parts wall = refl

  module _ (dir : Direction) (bound : Option (ℕ × ℕ)) where
    abbrev pub fires_in : ℕ → Option ℕ
    fires_in wall = if past_bound dir bound (wall / 60 % 24, wall % 60) then none else fires wall

    abbrev as_wall : ℕ → ℕ → ℕ → ℕ
    as_wall date h m = (date * 24 + h) * 60 + m

    -- The minutes of a day, by hours.
    by_hours :
        (date : ℕ)
        → gather dir fires_in (range (date * 1440) 1440)
          ≡ gather dir
              (λ h. gather dir (λ m. fires_in (as_wall date h m)) (range 0 60))
              (range 0 24)
    by_hours date =
        let base : date * 24 * 60 ≡ date * 1440 = omega arith in
        let hour0 : date * 24 + 0 ≡ date * 24 = omega arith in
        sym (rw base at (gather-blocks dir fires_in 60 (date * 24) 24))
        ∙ rw hour0 at
            (gather-range_shift dir (λ b. gather dir fires_in (range (b * 60) 60)) (date * 24) 0 24)
        ∙ gather-eq dir _ _ (λ h. by_minutes ((date * 24 + h) * 60)) (range 0 24)
      where
        by_minutes :
            (s : ℕ)
            → gather dir fires_in (range s 60) ≡ gather dir (λ m. fires_in (s + m)) (range 0 60)
        by_minutes s =
            let same : s + 0 ≡ s = omega arith in
            rw same at (gather-range_shift dir fires_in s 0 60)

    -- The candidates of a day, by hours.
    by_candidates :
        (date : ℕ)
        → scan_within_day clock e date bound dir
          ≡ gather dir
              (λ h.
                if has e.hour h
                then gather dir
                    (λ m.
                      if has e.minute m then try_candidate clock e dir bound date (h, m) else none)
                    (range 0 60)
                else none)
              (range 0 24)
    unfolding scan_within_day
    by_candidates date =
        gather-in_order dir (try_candidate clock e dir bound date) (candidates clock e)
        ∙ gather-flat_map dir (try_candidate clock e dir bound date)
            (λ h. map (λ m. (h, m)) (minutes clock e)) (hours clock e)
        ∙ gather-eq dir _ _
            (λ h.
              gather-map dir (try_candidate clock e dir bound date) (λ m. (h, m)) (minutes clock e)
              ∙ gather-filter dir (λ m. try_candidate clock e dir bound date (h, m))
                  (λ m. has e.minute m) (range 0 60))
            (hours clock e)
        ∙ gather-filter dir _ (λ h. has e.hour h) (range 0 24)

    -- A minute of a day that matches: its parts, and what it fires.
    same_minute :
        (date h m : ℕ)
        → h < 24
        → m < 60
        → day_matches clock e date ≡ true
        → (if has e.hour h
            then if has e.minute m then try_candidate clock e dir bound date (h, m) else none
            else none)
          ≡ fires_in (as_wall date h m)
    same_minute date h m lh lm d =
        let wall : date * 1440 + h * 60 + m ≡ as_wall date h m = omega arith in
        let of_minute : as_wall date h m % 60 ≡ m = omega (arith, lm) in
        let of_hour : as_wall date h m / 60 % 24 ≡ h = omega (arith, lh, lm) in
        let of_date : as_wall date h m / 1440 ≡ date = omega (arith, lh, lm) in
        rw (wall, matches_parts (as_wall date h m), of_minute, of_hour, of_date, d)
          (regroup (past_bound dir bound (h, m)) (has e.minute m) (has e.hour h)
            (resolve_in clock (as_wall date h m)))

    -- A day that does not match fires nothing.
    idle_minute :
        (date wall : ℕ)
        → date * 1440 ≤ wall
        → wall < date * 1440 + 1440
        → day_matches clock e date ≡ false
        → fires_in wall ≡ none
    idle_minute date wall a b d =
        let of_date : wall / 1440 ≡ date = omega (arith, a, b) in
        rw (matches_parts wall, of_date, d)
          (idle (past_bound dir bound (wall / 60 % 24, wall % 60)) (has e.minute (wall % 60))
            (has e.hour (wall / 60 % 24)) (resolve_in clock wall))

    same_hour :
        (date h : ℕ)
        → h < 24
        → day_matches clock e date ≡ true
        → (if has e.hour h
            then gather dir
                (λ m. if has e.minute m then try_candidate clock e dir bound date (h, m) else none)
                (range 0 60)
            else none)
          ≡ gather dir (λ m. fires_in (as_wall date h m)) (range 0 60)
    same_hour date h lh d = elim (Bool-cases (has e.hour h)) [
      | inl named ↦
          rw named
            (gather-range_eq dir _ _ 0 60 (λ m a b. rw named at (same_minute date h m lh b d)))
      | inr other ↦
          rw other (
            sym (gather-none dir _ 0 60 (λ m a b. sym (rw other at (same_minute date h m lh b d)))))
    ]

  -- The scan of a day, if its date matches, finds what a search through all its minutes finds.
  pub scan_within_day-gather :
      (dir : Direction) (bound : Option (ℕ × ℕ)) (date : ℕ)
      → (if day_matches clock e date then scan_within_day clock e date bound dir else none)
        ≡ gather dir (fires_in dir bound) (range (date * 1440) 1440)
  scan_within_day-gather dir bound date = elim (Bool-cases (day_matches clock e date)) [
    | inl d ↦ rw d (
        by_candidates dir bound date
        ∙ gather-range_eq dir _ _ 0 24 (λ h a b. same_hour dir bound date h b d)
        ∙ sym (by_hours dir bound date))
    | inr d ↦ rw d (
        sym (
          gather-none dir (fires_in dir bound) (date * 1440) 1440
            (λ wall a b. idle_minute dir bound date wall a b d)))
  ]
