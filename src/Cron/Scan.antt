-- ===== src/Cron/Scan.antt =====
-- The scan over the days (engine/src/cron.rs, `scan`) against a search through every minute.
use mysql_ssh_db_sync.Prelude.{
  ℕ, zero, suc, ◌+◌, ◌-◌, ◌*◌, ◌/◌, ◌%◌, ◌≤◌, ◌<◌, min, ◌≡◌, refl, sym, ap, ◌∙◌, inl, inr, true,
  false, Option, none, some, ltb, Bool-cases, Direction, forward, backward, range, or_else,
  or_else-none, gather, gather_skip, gather_cut, gather-range_add, gather-range_eq, arith,
}
use mysql_ssh_db_sync.Cron.{Clock, CronExpression, pair_lt, past_bound, scan_days, next_date}
use mysql_ssh_db_sync.Cron.Days.{fires, fires_in, scan_within_day-gather}

-- Within a day, the pairs of hour and minute are in the order of the minutes.
pair_lt_of :
    (a b c d : ℕ) → a * 60 + b < c * 60 + d → b < 60 → d < 60 → pair_lt (a, b) (c, d) ≡ true
pair_lt_of a b c d h hb hd = ground arith

pair_lt-false :
    (a b c d : ℕ) → c * 60 + d ≤ a * 60 + b → b < 60 → d < 60 → pair_lt (a, b) (c, d) ≡ false
pair_lt-false a b c d h hb hd = ground arith

abbrev pub clock_of : ℕ → ℕ × ℕ
clock_of w = (w / 60 % 24, w % 60)

earlier : (v w : ℕ) → v / 1440 ≡ w / 1440 → v < w → pair_lt (clock_of v) (clock_of w) ≡ true
earlier v w e h =
    pair_lt_of (v / 60 % 24) (v % 60) (w / 60 % 24) (w % 60) (omega (arith, e, h)) (omega arith)
      (omega arith)

not_earlier : (v w : ℕ) → v / 1440 ≡ w / 1440 → w ≤ v → pair_lt (clock_of v) (clock_of w) ≡ false
not_earlier v w e h =
    pair_lt-false (v / 60 % 24) (v % 60) (w / 60 % 24) (w % 60) (omega (arith, e, h)) (omega arith)
      (omega arith)

module _ (clock : Clock) (e : CronExpression) where
  is_past :
      (dir : Direction) (bound : Option (ℕ × ℕ)) (w : ℕ)
      → past_bound dir bound (clock_of w) ≡ true
      → fires_in clock e dir bound w ≡ none
  is_past dir bound w h = rw h refl

  not_past :
      (dir : Direction) (bound : Option (ℕ × ℕ)) (w : ℕ)
      → past_bound dir bound (clock_of w) ≡ false
      → fires_in clock e dir bound w ≡ fires clock e w
  not_past dir bound w h = rw h refl

  -- On the first day only the minutes from the start on count, or those up to it.
  first_day_forward :
      (s : ℕ)
      → gather forward (fires_in clock e forward (some (clock_of s))) (range (s / 1440 * 1440) 1440)
        ≡ gather forward (fires clock e) (range s (1440 - s % 1440))
  first_day_forward s =
      let whole : 1440 ≡ s % 1440 + (1440 - s % 1440) = omega arith in
      let meet : s / 1440 * 1440 + s % 1440 ≡ s = omega arith in
      ap (λ n. gather forward bounded (range (s / 1440 * 1440) n)) whole
      ∙ gather_skip forward bounded (s / 1440 * 1440) (s % 1440) (1440 - s % 1440) (λ w a b.
        is_past forward (some (clock_of s)) w
          (earlier w s (omega (arith, a, b)) (omega (arith, a, b))))
      ∙ ap (λ from. gather forward bounded (range from (1440 - s % 1440))) meet
      ∙ gather-range_eq forward bounded (fires clock e) s (1440 - s % 1440) (λ w a b.
        not_past forward (some (clock_of s)) w (not_earlier w s (omega (arith, a, b)) a))
    where
      bounded : ℕ → Option ℕ
      bounded = fires_in clock e forward (some (clock_of s))

  first_day_backward :
      (s : ℕ)
      → gather backward
          (fires_in clock e backward (some (clock_of s)))
          (range (s / 1440 * 1440) 1440)
        ≡ gather backward (fires clock e) (range (s / 1440 * 1440) (s % 1440 + 1))
  first_day_backward s =
      let whole : 1440 ≡ s % 1440 + 1 + (1439 - s % 1440) = omega arith in
      ap (λ n. gather backward bounded (range (s / 1440 * 1440) n)) whole
      ∙ gather_cut backward bounded (s / 1440 * 1440) (s % 1440 + 1) (1439 - s % 1440) (λ w a b.
        is_past backward (some (clock_of s)) w
          (earlier s w (omega (arith, a, b)) (omega (arith, a, b))))
      ∙ gather-range_eq backward bounded (fires clock e) (s / 1440 * 1440) (s % 1440 + 1) (λ w a b.
        not_past backward (some (clock_of s)) w
          (not_earlier s w (omega (arith, a, b)) (omega (arith, a, b))))
    where
      bounded : ℕ → Option ℕ
      bounded = fires_in clock e backward (some (clock_of s))

  -- A search through days.
  abbrev pub through : Direction → ℕ → ℕ → Option ℕ
  through dir wall n = gather dir (fires clock e) (range wall n)

  onward : Direction → Option ℕ → ℕ → Option ℕ
  onward dir date left = elim date [
    | none ↦ none
    | some date' ↦ scan_days clock e dir none date' left
  ]

  one_day :
      (dir : Direction) (date left : ℕ)
      → scan_days clock e dir none date (suc left)
        ≡ or_else (through dir (date * 1440) 1440) (onward dir (next_date clock e dir date) left)
  unfolding scan_days onward
  one_day dir date left =
      ap (λ r. or_else r (onward dir (next_date clock e dir date) left))
        (scan_within_day-gather clock e dir none date)

  joined_forward :
      (wall a b : ℕ)
      → or_else (through forward wall a) (through forward (wall + a) b)
        ≡ through forward wall (a + b)
  joined_forward wall a b = sym (gather-range_add forward (fires clock e) wall a b)

  joined_backward :
      (wall a b : ℕ)
      → or_else (through backward (wall + a) b) (through backward wall a)
        ≡ through backward wall (a + b)
  joined_backward wall a b = sym (gather-range_add backward (fires clock e) wall a b)

  -- How many days a scan can reach, from a date on or back to it.
  abbrev pub days_ahead : ℕ → ℕ → ℕ
  days_ahead date left = min left (suc clock.last_date - date)

  abbrev pub days_back : ℕ → ℕ → ℕ
  days_back date left = min left (suc date)

  later_forward :
      (left date : ℕ)
      → date ≤ clock.last_date
      → scan_days clock e forward none date left
        ≡ through forward (date * 1440) (days_ahead date left * 1440)
  unfolding scan_days gather onward
  later_forward zero date h =
      let nothing : days_ahead date 0 * 1440 ≡ 0 = ground arith in
      sym (ap (through forward (date * 1440)) nothing)
  later_forward (suc left) date h =
      one_day forward date left ∙ elim (Bool-cases (ltb date clock.last_date)) [
        | inl more ↦
            let ahead : next_date clock e forward date ≡ some (suc date) = rw more refl in
            let next : suc date * 1440 ≡ date * 1440 + 1440 = omega arith in
            let total : 1440 + days_ahead (suc date) left * 1440
                ≡ days_ahead date (suc left) * 1440 =
              ground arith in
            ap (λ d. or_else (through forward (date * 1440) 1440) (onward forward d left)) ahead
            ∙ ap (or_else (through forward (date * 1440) 1440)) (
                later_forward left (suc date) (ground arith)
                ∙ ap (λ wall. through forward wall (days_ahead (suc date) left * 1440)) next)
            ∙ joined_forward (date * 1440) 1440 (days_ahead (suc date) left * 1440)
            ∙ ap (through forward (date * 1440)) total
        | inr last ↦
            let stop : next_date clock e forward date ≡ none = rw last refl in
            let total : 1440 ≡ days_ahead date (suc left) * 1440 = ground arith in
            ap (λ d. or_else (through forward (date * 1440) 1440) (onward forward d left)) stop
            ∙ or_else-none (through forward (date * 1440) 1440)
            ∙ ap (through forward (date * 1440)) total
      ]

  later_backward :
      (left date : ℕ)
      → scan_days clock e backward none date left
        ≡ through backward ((suc date - days_back date left) * 1440) (days_back date left * 1440)
  unfolding scan_days gather onward
  later_backward zero date =
      let nothing : days_back date 0 * 1440 ≡ 0 = ground arith in
      sym (ap (through backward ((suc date - days_back date 0) * 1440)) nothing)
  later_backward (suc left) zero =
      let total : 1440 ≡ days_back 0 (suc left) * 1440 = ground arith in
      let from : 0 ≡ (1 - days_back 0 (suc left)) * 1440 = ground arith in
      one_day backward 0 left
      ∙ or_else-none (through backward 0 1440)
      ∙ ap (λ n. through backward 0 n) total
      ∙ ap (λ wall. through backward wall (days_back 0 (suc left) * 1440)) from
  later_backward (suc left) (suc date) =
      let from : (suc date - days_back date left) * 1440
          ≡ (suc (suc date) - days_back (suc date) (suc left)) * 1440 =
        ground arith in
      let total : days_back date left * 1440 + 1440 ≡ days_back (suc date) (suc left) * 1440 =
        ground arith in
      let meet : suc date * 1440
          ≡ (suc date - days_back date left) * 1440 + days_back date left * 1440 =
        ground arith in
      one_day backward (suc date) left
      ∙ ap (or_else (through backward (suc date * 1440) 1440)) (later_backward left date)
      ∙ ap
          (λ wall. or_else (through backward wall 1440) (
            through backward ((suc date - days_back date left) * 1440)
              (days_back date left * 1440)))
          meet
      ∙ joined_backward ((suc date - days_back date left) * 1440) (days_back date left * 1440) 1440
      ∙ ap (through backward ((suc date - days_back date left) * 1440)) total
      ∙ ap (λ wall. through backward wall (days_back (suc date) (suc left) * 1440)) from

  pub first_forward :
      (left s : ℕ)
      → s / 1440 ≤ clock.last_date
      → scan_days clock e forward (some (clock_of s)) (s / 1440) (suc left)
        ≡ through forward s (days_ahead (s / 1440) (suc left) * 1440 - s % 1440)
  unfolding scan_days onward
  first_forward left s h =
      ap (λ r. or_else r (onward forward (next_date clock e forward (s / 1440)) left))
        (scan_within_day-gather clock e forward (some (clock_of s)) (s / 1440)
          ∙ first_day_forward s)
      ∙ elim (Bool-cases (ltb (s / 1440) clock.last_date)) [
        | inl more ↦
            let ahead : next_date clock e forward (s / 1440) ≡ some (suc (s / 1440)) =
              rw more refl in
            let next : suc (s / 1440) * 1440 ≡ s + (1440 - s % 1440) = omega arith in
            let total : 1440 - s % 1440 + days_ahead (suc (s / 1440)) left * 1440
                ≡ days_ahead (s / 1440) (suc left) * 1440 - s % 1440 =
              ground arith in
            ap (λ d. or_else (through forward s (1440 - s % 1440)) (onward forward d left)) ahead
            ∙ ap (or_else (through forward s (1440 - s % 1440))) (
                later_forward left (suc (s / 1440)) (ground arith)
                ∙ ap (λ wall. through forward wall (days_ahead (suc (s / 1440)) left * 1440)) next)
            ∙ joined_forward s (1440 - s % 1440) (days_ahead (suc (s / 1440)) left * 1440)
            ∙ ap (through forward s) total
        | inr last ↦
            let stop : next_date clock e forward (s / 1440) ≡ none = rw last refl in
            let total : 1440 - s % 1440 ≡ days_ahead (s / 1440) (suc left) * 1440 - s % 1440 =
              ground arith in
            ap (λ d. or_else (through forward s (1440 - s % 1440)) (onward forward d left)) stop
            ∙ or_else-none (through forward s (1440 - s % 1440))
            ∙ ap (through forward s) total
      ]

  pub first_backward :
      (left s : ℕ)
      → scan_days clock e backward (some (clock_of s)) (s / 1440) (suc left)
        ≡ through backward
            ((suc (s / 1440) - days_back (s / 1440) (suc left)) * 1440)
            ((days_back (s / 1440) (suc left) - 1) * 1440 + s % 1440 + 1)
  unfolding scan_days onward
  first_backward left s =
      ap (λ r. or_else r (onward backward (next_date clock e backward (s / 1440)) left))
        (scan_within_day-gather clock e backward (some (clock_of s)) (s / 1440)
          ∙ first_day_backward s)
      ∙ before (s / 1440) (s % 1440 + 1)
      ∙ ap (through backward ((suc (s / 1440) - days_back (s / 1440) (suc left)) * 1440))
          (omega arith)
    where
      before :
          (date part : ℕ)
          → or_else
              (through backward (date * 1440) part)
              (onward backward (next_date clock e backward date) left)
            ≡ through backward
                ((suc date - days_back date (suc left)) * 1440)
                ((days_back date (suc left) - 1) * 1440 + part)
      before zero part =
          let total : part ≡ (days_back 0 (suc left) - 1) * 1440 + part = ground arith in
          let from : 0 ≡ (1 - days_back 0 (suc left)) * 1440 = ground arith in
          or_else-none (through backward 0 part)
          ∙ ap (λ n. through backward 0 n) total
          ∙ ap (λ wall. through backward wall ((days_back 0 (suc left) - 1) * 1440 + part)) from
      before (suc date) part =
          let from : (suc date - days_back date left) * 1440
              ≡ (suc (suc date) - days_back (suc date) (suc left)) * 1440 =
            ground arith in
          let total : days_back date left * 1440 + part
              ≡ (days_back (suc date) (suc left) - 1) * 1440 + part =
            ground arith in
          let meet : suc date * 1440
              ≡ (suc date - days_back date left) * 1440 + days_back date left * 1440 =
            ground arith in
          ap (or_else (through backward (suc date * 1440) part)) (later_backward left date)
          ∙ ap
              (λ wall. or_else (through backward wall part) (
                through backward ((suc date - days_back date left) * 1440)
                  (days_back date left * 1440)))
              meet
          ∙ joined_backward ((suc date - days_back date left) * 1440) (days_back date left * 1440)
              part
          ∙ ap (through backward ((suc date - days_back date left) * 1440)) total
          ∙ ap (λ wall. through backward wall ((days_back (suc date) (suc left) - 1) * 1440 + part))
              from
