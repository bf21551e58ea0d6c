-- ===== src/Cron/Grammar.antt =====
-- engine/src/cron.rs: how a field of an expression is written, and what it selects.
use mysql_ssh_db_sync.Prelude.{
  ℕ, zero, suc, ◌^◌, ◌+◌, ◌≤◌, ◌<◌, ◌≡◌, ◌⊎◌, Option, none, some, List, [], ◌∷◌, ◌++◌, map, Text,
  text, join, decimal, Within,
}
use mysql_ssh_db_sync.Cron.Parse.{month_names, dow_names}

-- How a value is written, with the value.
abbrev pub Value : Type 0
Value = Text × ℕ

abbrev pub month_values : List Value
month_values =
    (text "jan", 1)
    ∷ (text "feb", 2)
    ∷ (text "mar", 3)
    ∷ (text "apr", 4)
    ∷ (text "may", 5)
    ∷ (text "jun", 6)
    ∷ (text "jul", 7)
    ∷ (text "aug", 8)
    ∷ (text "sep", 9)
    ∷ (text "oct", 10)
    ∷ (text "nov", 11)
    ∷ (text "dec", 12)
    ∷ []

abbrev pub dow_values : List Value
dow_values =
    (text "sun", 0)
    ∷ (text "mon", 1)
    ∷ (text "tue", 2)
    ∷ (text "wed", 3)
    ∷ (text "thu", 4)
    ∷ (text "fri", 5)
    ∷ (text "sat", 6)
    ∷ []

-- The names of a field, and what they stand for.
pub data Named : List Text → List Value → Type 0 where
  no_names : Named [] []
  months : Named month_names month_values
  weekdays : Named dow_names dow_values

-- A value of a field: a number in decimal digits or a name, within the bounds of the field.
abbrev pub IsValue : ℕ → ℕ → List Value → Value → Type 0
IsValue low high named (token, value) =
    (low ≤ value × value ≤ high) × ((token ≡ decimal value) ⊎ Within (token, value) named)

pub data Range : Type 0 where
  every : Range
  single : Value → Range
  span : Value → Value → Range

-- A range, with a step if one is written.
pub record Part : Type 0 where
  pub range : Range
  pub step : Option ℕ

abbrev pub range_text : Range → Text
range_text Range.every = text "*"
range_text (Range.single (token, value)) = token
range_text (Range.span (a, lo) (b, hi)) = a ++ (45 ∷ b)

abbrev pub step_text : Text → Option ℕ → Text
step_text range none = range
step_text range (some step) = range ++ (47 ∷ decimal step)

abbrev pub part_text : Part → Text
part_text p = step_text (range_text p.range) p.step

-- The parts of a field, with commas between.
abbrev pub field_text : List Part → Text
field_text parts = join (44 ∷ []) (map part_text parts)

abbrev pub IsRange : ℕ → ℕ → List Value → Range → Type 0
IsRange low high named Range.every = low ≤ high
IsRange low high named (Range.single v) = IsValue low high named v
IsRange low high named (Range.span a b) =
    IsValue low high named a × IsValue low high named b × (a.1 ≤ b.1)

-- A step that is not zero and keeps the values of the field below the end of a `u32`.
abbrev pub IsStep : ℕ → Option ℕ → Type 0
IsStep high none = Unit
IsStep high (some step) = 0 < step × high + step < 2 ^ 32

abbrev pub IsPart : ℕ → ℕ → List Value → Part → Type 0
IsPart low high named p = IsRange low high named p.range × IsStep high p.step

-- The first value, the last and the step of what a part selects. A single value with a step of two
-- or more starts a range that goes on to the end of the field; a step of one adds nothing.
abbrev pub meaning : ℕ → ℕ → Range → Option ℕ → ℕ × ℕ × ℕ
meaning low high Range.every none = (low, high, 1)
meaning low high Range.every (some step) = (low, high, step)
meaning low high (Range.single (token, v)) none = (v, v, 1)
meaning low high (Range.single (token, v)) (some zero) = (v, v, 0)
meaning low high (Range.single (token, v)) (some (suc zero)) = (v, v, 1)
meaning low high (Range.single (token, v)) (some (suc (suc n))) = (v, high, suc (suc n))
meaning low high (Range.span (a, lo) (b, hi)) none = (lo, hi, 1)
meaning low high (Range.span (a, lo) (b, hi)) (some step) = (lo, hi, step)
