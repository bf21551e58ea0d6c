-- ===== src/Cron/Examples.antt =====
-- Two in the morning, every day, on a clock that skips that hour on its first day (engine/src/cron.rs).
use mysql_ssh_db_sync.Prelude.{
  suc, ◌+◌, ◌-◌, ◌^◌, none, ltb, ◌%◌, ◌≡◌, refl, true, some, text, nat_beq, if◌then◌else◌,
  first_some,
}
use mysql_ssh_db_sync.Cron.{
  single, ambiguous, no_such_time, Clock, CronExpression, has, day_matches, scan_within_day,
  scan_days, scan, next_after_in, prev_at_or_before_in,
}
use mysql_ssh_db_sync.Cron.Next.{
  IsNextFrom, IsLastUpTo, next_after_in-IsNextFrom, prev_at_or_before_in-IsLastUpTo,
}

abbrev spring : Clock
spring = record {
  last_date = 20;
  month = λ date. 3;
  day = λ date. suc date;
  num_days_from_sunday = λ date. date % 7;
  from_local_datetime = λ wall. if nat_beq wall 120 then no_such_time else single wall;
  wall_clock = λ at. at;
}

abbrev at_two : CronExpression
at_two = record {
  minute = 1;
  hour = 4;
  dom = 0xfffffffe;
  month = 0x1ffe;
  dow = 0x7f;
  dom_star = true;
  dow_star = true;
  source = text "0 2 * * *";
}

-- The first day has no such hour, so the second day's is next.
second_day : next_after_in spring at_two 100 ≡ some (some 1560)
unfolding next_after_in scan scan_days day_matches has scan_within_day first_some
second_day = refl

next_after_in-IsNextFrom_example : IsNextFrom spring at_two 101 (some 1560)
next_after_in-IsNextFrom_example = next_after_in-IsNextFrom spring at_two 100 (some 1560) second_day

prev_at_or_before_in-IsLastUpTo_example :
    IsLastUpTo spring at_two 3000 (prev_at_or_before_in spring at_two 3000)
prev_at_or_before_in-IsLastUpTo_example = prev_at_or_before_in-IsLastUpTo spring at_two 3000

-- A clock that is set back by an hour at minute 120 and shows the minutes from 60 on twice.
abbrev autumn : Clock
autumn = record {
  last_date = 20;
  month = λ date. 11;
  day = λ date. suc date;
  num_days_from_sunday = λ date. date % 7;
  from_local_datetime = λ wall.
      if ltb wall 60
      then single wall
      else if ltb wall 120
      then ambiguous wall (wall + 60)
      else single (wall + 60);
  wall_clock = λ at. if ltb at 120 then at else at - 60;
}

abbrev half_past_one : CronExpression
half_past_one = record {
  minute = 2 ^ 30;
  hour = 2;
  dom = 0xfffffffe;
  month = 0x1ffe;
  dow = 0x7f;
  dom_star = true;
  dow_star = true;
  source = text "30 1 * * *";
}

-- In the second pass of the hour, what comes next is an instant that is over.
goes_back : next_after_in autumn half_past_one 130 ≡ some (some 90)
unfolding next_after_in scan scan_days day_matches has scan_within_day first_some
goes_back = refl

-- And nothing was before, although the instant 90 was.
nothing_before : prev_at_or_before_in autumn half_past_one 130 ≡ none
unfolding prev_at_or_before_in scan scan_days day_matches has scan_within_day first_some
nothing_before = refl
