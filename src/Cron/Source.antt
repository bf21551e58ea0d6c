-- ===== src/Cron/Source.antt =====
-- engine/src/cron.rs: an expression keeps the text that it was read from, so that what is stored
-- is read back as the same expression.
use mysql_ssh_db_sync.Prelude.{
  ◌≡◌, refl, ap, subst, ◌∙◌, none, some, List, [], ◌∷◌, Text, text, is_empty, trim, trim-trim,
  strip_prefix, split_whitespace, ok, err,
}
use mysql_ssh_db_sync.Cron.{CronExpression}
use mysql_ssh_db_sync.Cron.Parse.{
  parse_field, parse_five, parse_list, parse_fields, expand_shorthand, parse_shorthand,
  parse_trimmed, from_str, as_str, month_names, dow_names,
}
use mysql_ssh_db_sync.Cron.Fields.{OnOk, OnOk-bind, OnOk-any, OnOk-if}

abbrev Keeps : Text → CronExpression → Type 0
Keeps source e = e.source ≡ source

abbrev Anything : {A : Type 0} → A → Type 0
Anything a = Unit

Keeps-parse_five :
    (source f0 f1 f2 f3 f4 : Text) → OnOk (Keeps source) (parse_five source f0 f1 f2 f3 f4)
Keeps-parse_five source f0 f1 f2 f3 f4 =
    OnOk-bind Anything (Keeps source) (parse_field (text "minute") f0 0 59 []) _ (OnOk-any _) λ a _.
      OnOk-bind Anything (Keeps source) (parse_field (text "hour") f1 0 23 []) _ (OnOk-any _) λ b _.
        OnOk-bind Anything (Keeps source) (parse_field (text "day-of-month") f2 1 31 []) _
          (OnOk-any _)
          λ c _.
            OnOk-bind Anything (Keeps source) (parse_field (text "month") f3 1 12 month_names) _
              (OnOk-any _)
              λ d _.
                OnOk-bind Anything (Keeps source)
                  (parse_field (text "day-of-week") f4 0 7 dow_names) _ (OnOk-any _) λ e _. refl

Keeps-parse_list :
    (source : Text) (fields : List Text) → OnOk (Keeps source) (parse_list source fields)
Keeps-parse_list source [] = tt
Keeps-parse_list source (f0 ∷ []) = tt
Keeps-parse_list source (f0 ∷ f1 ∷ []) = tt
Keeps-parse_list source (f0 ∷ f1 ∷ f2 ∷ []) = tt
Keeps-parse_list source (f0 ∷ f1 ∷ f2 ∷ f3 ∷ []) = tt
Keeps-parse_list source (f0 ∷ f1 ∷ f2 ∷ f3 ∷ f4 ∷ []) = Keeps-parse_five source f0 f1 f2 f3 f4
Keeps-parse_list source (f0 ∷ f1 ∷ f2 ∷ f3 ∷ f4 ∷ f5 ∷ fields) =
    OnOk-if (Keeps source) _ _ (err _) (λ _. tt)

Keeps-parse_fields : (source : Text) → OnOk (Keeps source) (parse_fields source)
unfolding parse_fields
Keeps-parse_fields source = Keeps-parse_list source (split_whitespace source)

Keeps-parse_trimmed : (trimmed : Text) → OnOk (Keeps trimmed) (parse_trimmed trimmed)
Keeps-parse_trimmed trimmed = OnOk-if (Keeps trimmed) (is_empty trimmed) _ _ λ _.
    elim (strip_prefix (text "@") trimmed)
      as (λ o. OnOk (Keeps trimmed) (elim o [
        | some shorthand ↦ parse_shorthand trimmed shorthand
        | none ↦ parse_fields trimmed
      ])) [
        | some shorthand ↦
            OnOk-bind Anything (Keeps trimmed) (expand_shorthand shorthand) _ (OnOk-any _)
              λ expanded _.
                OnOk-bind Anything (Keeps trimmed) (parse_fields expanded) _ (OnOk-any _)
                  λ parsed _. refl
        | none ↦ Keeps-parse_fields trimmed
      ]

-- What an accepted text is stored as is the text without the white space around it, and reading
-- that gives the same expression.
pub from_str-as_str :
    (s : Text) (e : CronExpression)
    → from_str s ≡ ok e
    → (as_str e ≡ trim s) × (from_str (as_str e) ≡ ok e)
unfolding from_str
from_str-as_str s e h =
    let kept = subst (OnOk (Keeps (trim s))) h (Keeps-parse_trimmed (trim s)) in
    (kept, ap parse_trimmed (ap trim kept ∙ trim-trim s) ∙ h)
