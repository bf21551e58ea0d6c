-- ===== src/Cron/Parse.antt =====
-- engine/src/cron.rs: the parser of an expression. The reason of a bad field is data, where the
-- code formats a sentence; what overflows a `u32` wraps around, as in a release build.
use Prim.Native.Nat.{bit_and, bit_or}
use mathlib.Core.Option as Option
use mysql_ssh_db_sync.Prelude.{
  ℕ, zero, suc, ◌+◌, ◌-◌, ◌%◌, ◌^◌, Bool, true, false, ◌&&◌, ◌||◌, ◌++◌, Option, none, some, List,
  [], ◌∷◌, Text, text, ltb, leb, nat_beq, if◌then◌else◌, is_empty, length, all, trim, split,
  split_once, split_whitespace, strip_prefix, Result, ok, err, ◌>>=◌, ok_or, get_to, byte_len,
  is_ascii_alphabetic, starts_with, to_ascii_lowercase, parse_u32, ◌==◌, list_eq, nat_eq,
}
use mysql_ssh_db_sync.Cron.{CronExpression, bit, has}

pub data BadReason : Type 0 where
  empty_entry zero_step matches_nothing : BadReason
  not_a_step not_a_value : Text → BadReason
  runs_backwards : ℕ → ℕ → BadReason
  out_of_range : ℕ → ℕ → ℕ → BadReason

pub data CronError : Type 0 where
  wrong_field_count : ℕ → CronError
  looks_like_seconds unknown_shorthand unknown_timezone : Text → CronError
  reboot_unsupported empty : CronError
  bad_field : Text → Text → BadReason → CronError

abbrev pub month_names : List Text
month_names =
    text "jan"
    ∷ text "feb"
    ∷ text "mar"
    ∷ text "apr"
    ∷ text "may"
    ∷ text "jun"
    ∷ text "jul"
    ∷ text "aug"
    ∷ text "sep"
    ∷ text "oct"
    ∷ text "nov"
    ∷ text "dec"
    ∷ []

abbrev pub dow_names : List Text
dow_names =
    text "sun" ∷ text "mon" ∷ text "tue" ∷ text "wed" ∷ text "thu" ∷ text "fri" ∷ text "sat" ∷ []

-- `Iterator::position`.
abbrev pub position : {A : Type 0} → (A → Bool) → List A → Option ℕ
position p [] = none
position p (x ∷ xs) = let rest = position p xs in if p x then some 0 else Option.map suc rest

abbrev pub unwrap_or : {A : Type 0} → Option A → A → A
unwrap_or none a = a
unwrap_or (some a) _ = a

abbrev pub name_index : Text → List Text → Option ℕ
name_index token names =
    let head = unwrap_or (get_to 3 token) token in
    let index = position (λ n. to_ascii_lowercase n == to_ascii_lowercase head) names in
    if leb 3 (byte_len token) && all is_ascii_alphabetic token then index else none

module _ (field spec : Text) where
  abbrev pub bad : BadReason → CronError
  bad reason = bad_field field spec reason

  module _ (low high : ℕ) (names : List Text) where
    abbrev pub parse_number : Text → Result CronError ℕ
    parse_number token = ok_or (parse_u32 token) (bad (not_a_value token)) >>= λ value.
        if ltb value low || ltb high value
        then err (bad (out_of_range value low high))
        else ok value

    -- Months count from 1, weekdays from 0.
    unfoldable pub parse_value : Text → Result CronError ℕ
    unfolding get_to trim split
    parse_value token =
        let token = trim token in
        elim (name_index token names) [
          | some index ↦ ok (if names == month_names then suc index else index)
          | none ↦ parse_number token
        ]

    -- The range and the step of a part, which is cut at `/`.
    abbrev pub step_of : Text → Option (Text × Text) → Result CronError (Text × ℕ)
    step_of part none = ok (part, 1)
    step_of part (some (range_spec, s)) = ok_or (parse_u32 s) (bad (not_a_step s)) >>= λ step.
        if nat_beq step 0 then err (bad zero_step) else ok (range_spec, step)

    abbrev pub parse_step : Text → Result CronError (Text × ℕ)
    parse_step part = step_of part (split_once 47 part)

    -- The ends of a range that is cut at `-`.
    abbrev pub ends_of : Text → ℕ → Option (Text × Text) → Result CronError (ℕ × ℕ)
    ends_of range_spec step (some (a, b)) = parse_value a >>= λ lo.
        parse_value b >>= λ hi. if ltb hi lo then err (bad (runs_backwards lo hi)) else ok (lo, hi)
    ends_of range_spec step none =
        parse_value range_spec >>= λ v. ok (if ltb 1 step then (v, high) else (v, v))

    abbrev pub parse_range : Text → ℕ → Result CronError (ℕ × ℕ)
    parse_range range_spec step =
        if range_spec == text "*"
        then ok (low, high)
        else ends_of range_spec step (split_once 45 range_spec)

    abbrev pub parse_nonblank : Text → Result CronError (ℕ × ℕ × ℕ)
    parse_nonblank part = do
      (range_spec, step) ← parse_step part
      (lo, hi) ← parse_range range_spec step
      ok (lo, hi, step)

    unfoldable pub parse_part : Text → Result CronError (ℕ × ℕ × ℕ)
    unfolding parse_value split_once
    parse_part part =
        let part = trim part in if is_empty part then err (bad empty_entry) else parse_nonblank part

-- The loop over the values of a part, for which 64 rounds are enough.
unfoldable pub value_loop : ℕ → ℕ → ℕ → ℕ → ℕ → ℕ
value_loop zero v hi step bits = bits
value_loop (suc fuel) v hi step bits = elim (leb v hi) [
  | true ↦ value_loop fuel ((v + step) % 2 ^ 32) hi step (bit_or bits (bit v))
  | false ↦ bits
]

abbrev pub add_values : ℕ × ℕ × ℕ → ℕ → ℕ
add_values (lo, hi, step) bits = value_loop 64 lo hi step bits

module _ (field spec : Text) (low high : ℕ) (names : List Text) where
  -- The loop over the parts.
  unfoldable pub parse_parts : List Text → ℕ → Result CronError ℕ
  unfolding parse_part value_loop
  parse_parts [] bits = ok bits
  parse_parts (part ∷ parts) bits = parse_part field spec low high names part >>= λ values.
      parse_parts parts (add_values values bits)

  unfoldable pub parse_field : Result CronError (ℕ × Bool)
  unfolding parse_parts
  parse_field =
      let is_star = starts_with (text "*") spec in
      parse_parts (split 44 spec) 0 >>= λ bits.
      if nat_beq bits 0 then err (bad field spec matches_nothing) else ok (bits, is_star)

-- 0 and 7 are Sunday.
unfoldable pub sunday : ℕ → ℕ
unfolding has
sunday dow = if has dow 7 then bit_or (bit_and dow (2 ^ 64 - 1 - bit 7)) (bit 0) else dow

abbrev pub parse_five : Text → Text → Text → Text → Text → Text → Result CronError CronExpression
parse_five source f0 f1 f2 f3 f4 = do
  (minute, _) ← parse_field (text "minute") f0 0 59 []
  (hour, _) ← parse_field (text "hour") f1 0 23 []
  (dom, dom_star) ← parse_field (text "day-of-month") f2 1 31 []
  (month, _) ← parse_field (text "month") f3 1 12 month_names
  (dow, dow_star) ← parse_field (text "day-of-week") f4 0 7 dow_names
  ok (record {
    minute = minute;
    hour = hour;
    dom = dom;
    month = month;
    dow = sunday dow;
    dom_star = dom_star;
    dow_star = dow_star;
    source = source;
  })

abbrev pub parse_list : Text → List Text → Result CronError CronExpression
parse_list source (f0 ∷ f1 ∷ f2 ∷ f3 ∷ f4 ∷ []) = parse_five source f0 f1 f2 f3 f4
parse_list source fields =
    if nat_beq (length fields) 6 || nat_beq (length fields) 7
    then err (looks_like_seconds source)
    else err (wrong_field_count (length fields))

unfoldable pub parse_fields : Text → Result CronError CronExpression
unfolding parse_field sunday split_whitespace
parse_fields source = parse_list source (split_whitespace source)

unfoldable pub expand_shorthand : Text → Result CronError Text
unfolding trim
expand_shorthand name =
    let name = to_ascii_lowercase (trim name) in
    if name == text "yearly" || name == text "annually"
    then ok (text "0 0 1 1 *")
    else if name == text "monthly"
    then ok (text "0 0 1 * *")
    else if name == text "weekly"
    then ok (text "0 0 * * 0")
    else if name == text "daily" || name == text "midnight"
    then ok (text "0 0 * * *")
    else if name == text "hourly"
    then ok (text "0 * * * *")
    else if name == text "reboot"
    then err reboot_unsupported
    else err (unknown_shorthand (text "@" ++ name))

-- What the user typed is kept, not what it stands for.
abbrev pub keep_source : Text → CronExpression → CronExpression
keep_source source e = record e { source = source }

abbrev pub parse_shorthand : Text → Text → Result CronError CronExpression
parse_shorthand source shorthand = do
  expanded ← expand_shorthand shorthand
  parsed ← parse_fields expanded
  ok (keep_source source parsed)

abbrev pub parse_trimmed : Text → Result CronError CronExpression
parse_trimmed trimmed =
    if is_empty trimmed then err empty else elim (strip_prefix (text "@") trimmed) [
      | some shorthand ↦ parse_shorthand trimmed shorthand
      | none ↦ parse_fields trimmed
    ]

-- `FromStr`, and `Deserialize`.
unfoldable pub from_str : Text → Result CronError CronExpression
unfolding parse_fields expand_shorthand strip_prefix
from_str s = parse_trimmed (trim s)

-- `Display`, `as_str` and `Serialize`.
abbrev pub as_str : CronExpression → Text
as_str e = e.source
