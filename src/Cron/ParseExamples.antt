-- ===== src/Cron/ParseExamples.antt =====
-- Expressions as users write them (engine/src/cron.rs).
use mysql_ssh_db_sync.Prelude.{
  ℕ, ◌≡◌, refl, true, arith, text, trim, ok, [], ◌∷◌, any, starts_with, parse_unsigned, list_beq,
  ascii_lower, some, none, join, decimal, All, inl, inr, here, there,
}
use mysql_ssh_db_sync.Cron.{CronExpression, has}
use mysql_ssh_db_sync.Cron.Values.{selects}
use mysql_ssh_db_sync.Cron.Parse.{from_str, as_str, value_loop, parse_field, dow_names}
use mysql_ssh_db_sync.Cron.Grammar.{dow_values, weekdays, Range, Part, field_text, IsPart, meaning}
use mysql_ssh_db_sync.Cron.Values.{Runs, value_loop_ends}
use mysql_ssh_db_sync.Cron.Selection.{parse_field-selects}
use mysql_ssh_db_sync.Cron.Source.{from_str-as_str}

-- A step near the end of a `u32` walks down instead of up.
wraps_around : value_loop 64 5 59 4294967295 0 ≡ 63
unfolding value_loop
wraps_around = refl

value_loop_ends_example : Runs 59 4294967295 5 0 (value_loop 64 5 59 4294967295 0)
value_loop_ends_example =
    value_loop_ends 5 59 4294967295 0 (omega arith) (omega arith) (omega arith) (omega arith)

-- Monday to Friday in steps of two, and Sunday.
abbrev monday_on : Part
monday_on = record { range = Range.span (text "mon", 1) (text "fri", 5); step = some 2 }

abbrev sundays : Part
sundays = record { range = Range.single (text "0", 0); step = none }

written_as : field_text (monday_on ∷ sundays ∷ []) ≡ text "mon-fri/2,0"
unfolding decimal join
written_as = refl

weekdays-IsPart : All (IsPart 0 7 dow_values) (monday_on ∷ sundays ∷ [])
unfolding decimal
weekdays-IsPart = (
  (
    (
      (omega arith, inr (there _ (here _))),
      (omega arith, inr (there _ (there _ (there _ (there _ (there _ (here _))))))),
      omega arith,
    ),
    omega arith,
  ),
  (((omega arith, inl refl), tt), tt),
)

parse_field-selects_example :
    (bits : ℕ) × (parse_field
        (text "day-of-week")
        (field_text (monday_on ∷ sundays ∷ []))
        0
        7
        dow_names
      ≡ ok (bits, starts_with (text "*") (field_text (monday_on ∷ sundays ∷ []))))
    × ((u : ℕ)
        → has bits u ≡ any (λ q. selects u (meaning 0 7 q.range q.step)) (monday_on ∷ sundays ∷ []))
parse_field-selects_example =
    parse_field-selects (text "day-of-week") 0 7 dow_names dow_values weekdays (omega arith)
      monday_on (sundays ∷ []) weekdays-IsPart

abbrev nightly : CronExpression
nightly = record {
  minute = 1;
  hour = 1;
  dom = 4294967294;
  month = 8190;
  dow = 127;
  dom_star = true;
  dow_star = true;
  source = text "@daily";
}

nightly_read : from_str (text " @daily ") ≡ ok nightly
unfolding from_str list_beq ascii_lower parse_unsigned
nightly_read = refl

from_str-as_str_example :
    (as_str nightly ≡ trim (text " @daily ")) × (from_str (as_str nightly) ≡ ok nightly)
from_str-as_str_example = from_str-as_str (text " @daily ") nightly nightly_read
