-- ===== src/Cron.antt =====
-- engine/src/cron.rs: a parsed cron expression, and the scan for the minutes that it names.
--
-- A date is a number of days from the first date that chrono holds, and a wall-clock minute is
-- `date * 1440 + hour * 60 + minute`. What chrono knows of the calendar and of a time zone is a
-- parameter.
pub mod Days
pub mod Scan
pub mod Next
pub mod Bits
pub mod Parse
pub mod Values
pub mod Grammar
pub mod Tokens
pub mod Parts
pub mod Fields
pub mod Selection
pub mod Source
mod ParseExamples
mod Examples
use Prim.Native.Nat.{bit_and}
use mysql_ssh_db_sync.Prelude.{
  ℕ, zero, suc, ◌+◌, ◌-◌, ◌*◌, ◌/◌, ◌%◌, ◌^◌, min, Bool, true, false, not, ◌&&◌, ◌||◌, Option, none,
  some, List, [], ◌∷◌, map, Text, ltb, nat_beq, if◌then◌else◌, filter, Direction, forward, backward,
  range, reverse, flat_map, first_some, or_else,
}

-- What `from_local_datetime` answers.
pub data LocalResult : Type 0 where
  single : ℕ → LocalResult
  ambiguous : ℕ → ℕ → LocalResult
  no_such_time : LocalResult

pub record Clock : Type 0 where
  pub last_date : ℕ
  pub month : ℕ → ℕ
  pub day : ℕ → ℕ
  pub num_days_from_sunday : ℕ → ℕ
  pub from_local_datetime : ℕ → LocalResult
  pub wall_clock : ℕ → ℕ

abbrev pub resolved : LocalResult → Option ℕ
resolved (single at) = some at
resolved (ambiguous a b) = some (min a b)
resolved no_such_time = none

abbrev pub resolve_in : Clock → ℕ → Option ℕ
resolve_in clock wall = resolved (clock.from_local_datetime wall)

pub record CronExpression : Type 0 where
  pub minute : ℕ
  pub hour : ℕ
  pub dom : ℕ
  pub month : ℕ
  pub dow : ℕ
  pub dom_star : Bool
  pub dow_star : Bool
  pub source : Text

abbrev pub bit : ℕ → ℕ
bit v = 2 ^ v

-- `set & bit(v) != 0`.
unfoldable pub has : ℕ → ℕ → Bool
has set v = not (nat_beq (bit_and set (bit v)) 0)

abbrev pub max_scan_days : ℕ
max_scan_days = 1600

-- A pair of numbers below another, as tuples compare.
abbrev pub pair_lt : ℕ × ℕ → ℕ × ℕ → Bool
pair_lt (a, b) (c, d) = ltb a c || (nat_beq a c && ltb b d)

abbrev pub past_bound : Direction → Option (ℕ × ℕ) → ℕ × ℕ → Bool
past_bound dir none at = false
past_bound forward (some limit) at = pair_lt at limit
past_bound backward (some limit) at = pair_lt limit at

abbrev pub in_order {ℓ} : {A : Type ℓ} → Direction → List A → List A
in_order forward xs = xs
in_order backward xs = reverse xs

module _ (clock : Clock) (e : CronExpression) where
  unfoldable pub day_matches : ℕ → Bool
  unfolding has
  day_matches date =
      let dom = has e.dom (clock.day date) in
      let dow = has e.dow (clock.num_days_from_sunday date) in
      if not (has e.month (clock.month date))
      then false
      else if e.dom_star || e.dow_star
      then dom && dow
      else dom || dow

  -- Of a wall-clock minute.
  unfoldable pub matches : ℕ → Bool
  unfolding has day_matches
  matches wall =
      has e.minute (wall % 60) && (has e.hour (wall / 60 % 24) && day_matches (wall / 1440))

  abbrev pub hours : List ℕ
  hours = filter (λ h. has e.hour h) (range 0 24)

  abbrev pub minutes : List ℕ
  minutes = filter (λ m. has e.minute m) (range 0 60)

  abbrev pub candidates : List (ℕ × ℕ)
  candidates = flat_map (λ h. map (λ m. (h, m)) minutes) hours

  -- The body of the loop over the candidates of a day.
  abbrev pub try_candidate : Direction → Option (ℕ × ℕ) → ℕ → ℕ × ℕ → Option ℕ
  try_candidate dir bound date (h, m) =
      if past_bound dir bound (h, m) then none else resolve_in clock (date * 1440 + h * 60 + m)

  unfoldable pub scan_within_day : ℕ → Option (ℕ × ℕ) → Direction → Option ℕ
  unfolding has first_some
  scan_within_day date bound dir =
      first_some (try_candidate dir bound date) (in_order dir candidates)

  -- `succ_opt` and `pred_opt`.
  abbrev pub next_date : Direction → ℕ → Option ℕ
  next_date forward date = if ltb date clock.last_date then some (suc date) else none
  next_date backward zero = none
  next_date backward (suc date) = some date

  -- The loop over the days, of which `left` are left.
  unfoldable pub scan_days : Direction → Option (ℕ × ℕ) → ℕ → ℕ → Option ℕ
  unfolding day_matches scan_within_day
  scan_days dir bound date zero = none
  scan_days dir bound date (suc left) =
      or_else (if day_matches date then scan_within_day date bound dir else none)
        (elim (next_date dir date) [ none ↦ none | some date' ↦ scan_days dir none date' left ])

  unfoldable pub scan : ℕ → Direction → Option ℕ
  unfolding scan_days
  scan start dir = scan_days dir (some (start / 60 % 24, start % 60)) (start / 1440) max_scan_days

  -- The outer `none` is the panic of a start behind the last date.
  unfoldable pub next_after_in : ℕ → Option (Option ℕ)
  unfolding scan
  next_after_in after =
      let start = clock.wall_clock after + 1 in
      if ltb clock.last_date (start / 1440) then none else some (scan start forward)

  unfoldable pub prev_at_or_before_in : ℕ → Option ℕ
  unfolding scan
  prev_at_or_before_in at = scan (clock.wall_clock at) backward
