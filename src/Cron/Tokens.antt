-- ===== src/Cron/Tokens.antt =====
-- engine/src/cron.rs: the numbers and the names of a field, as the parser reads them.
use mysql_ssh_db_sync.Prelude.{
  ℕ, zero, suc, ◌+◌, ◌/◌, ◌%◌, ◌≤◌, ◌<◌, ◌≡◌, refl, sym, ap, subst, ◌∙◌, inl, inr, false, ◌||◌,
  none, some, List, [], ◌∷◌, Text, ltb, nat_beq, is_empty, All, All-map, All-Within, Lacks, trim,
  trim_start, trim_end, is_whitespace, split_once, ok, decimal, to_digits, IsDigit, IsDigit-decimal,
  is_ascii_alphabetic, parse_digits, parse_u32, parse_unsigned, arith, list_beq, ascii_lower,
}
use mysql_ssh_db_sync.Cron.Parse.{month_names, dow_names, name_index, parse_value}
use mysql_ssh_db_sync.Cron.Grammar.{
  Value, month_values, dow_values, Named, no_names, months, weekdays, IsValue,
}

-- The characters of a value: none of them separates values, and none is white space.
abbrev pub IsTokenChar : ℕ → Type 0
IsTokenChar c = 48 ≤ c × c ≤ 122

abbrev pub IsToken : Text → Type 0
IsToken s = (is_empty s ≡ false) × All IsTokenChar s

no_whitespace : (c : ℕ) → 33 ≤ c → c ≤ 122 → is_whitespace c ≡ false
unfolding is_whitespace
no_whitespace c h k = ground (arith, h, k)

abbrev pub IsVisible : ℕ → Type 0
IsVisible c = 33 ≤ c × c ≤ 122

trim_start-id : (s : Text) → All IsVisible s → trim_start s ≡ s
unfolding trim_start
trim_start-id [] h = refl
trim_start-id (c ∷ s) h = rw (no_whitespace c h.0.0 h.0.1) refl

trim_end-id : (s : Text) → All IsVisible s → trim_end s ≡ s
unfolding trim_end
trim_end-id [] h = refl
trim_end-id (c ∷ s) h = ground (arith, no_whitespace c h.0.0 h.0.1, trim_end-id s h.1)

pub trim-id : (s : Text) → All IsVisible s → trim s ≡ s
unfolding trim
trim-id s h = ap trim_end (trim_start-id s h) ∙ trim_end-id s h

pub split_once-none : (sep : ℕ) (s : Text) → Lacks sep s → split_once sep s ≡ none
unfolding split_once
split_once-none sep [] h = refl
split_once-none sep (c ∷ s) h = ground (arith, h.0, split_once-none sep s h.1)

parse_digits-to_digits :
    (bound fuel n : ℕ) (acc : Text)
    → n < fuel
    → n ≤ bound
    → parse_digits bound (to_digits fuel n acc) 0 ≡ parse_digits bound acc n
unfolding parse_digits to_digits
parse_digits-to_digits bound zero n acc h k = absurd (omega arith)
parse_digits-to_digits bound (suc fuel) n acc h k =
    ground (arith, h, k, parse_digits-to_digits bound fuel (n / 10) ((48 + n % 10) ∷ acc))

full_to_digits :
    (fuel n : ℕ) (acc : Text)
    → (fuel ≡ 0 → is_empty acc ≡ false)
    → is_empty (to_digits fuel n acc) ≡ false
unfolding to_digits
full_to_digits zero n acc h = h refl
full_to_digits (suc fuel) n acc h =
    ground (arith, full_to_digits fuel (n / 10) ((48 + n % 10) ∷ acc))

full-decimal : (n : ℕ) → is_empty (decimal n) ≡ false
unfolding decimal
full-decimal n = full_to_digits (suc n) n [] (λ e. absurd (omega (arith, e)))

pub IsToken-decimal : (n : ℕ) → IsToken (decimal n)
IsToken-decimal n = (
  full-decimal n,
  All-map IsDigit IsTokenChar (λ c h. (h.0, omega (arith, h.1))) (decimal n) (IsDigit-decimal n),
)

parse_unsigned-digits :
    (bound : ℕ) (s : Text)
    → is_empty s ≡ false
    → All IsDigit s
    → parse_unsigned bound s ≡ parse_digits bound s 0
unfolding parse_unsigned
parse_unsigned-digits bound [] h k = cc
parse_unsigned-digits bound (c ∷ s) h k =
    let digit : nat_beq c 43 ≡ false = ground (arith, k.0) in rw digit refl

pub parse_u32-decimal : (n : ℕ) → n ≤ 0xffffffff → parse_u32 (decimal n) ≡ some n
parse_u32-decimal n h =
    parse_unsigned-digits 0xffffffff (decimal n) (full-decimal n) (IsDigit-decimal n)
    ∙ unfold decimal in
      parse_digits-to_digits 0xffffffff (suc n) n [] (omega arith) h ∙ unfold parse_digits in refl

no_name :
    (s : Text) (names : List Text) → is_empty s ≡ false → All IsDigit s → name_index s names ≡ none
no_name [] names h k = cc
no_name (c ∷ s) names h k =
    let number : is_ascii_alphabetic c ≡ false = ground (arith, k.0) in ground (arith, number)

IsVisible-token : (s : Text) → All IsTokenChar s → All IsVisible s
IsVisible-token s h = All-map IsTokenChar IsVisible (λ c b. (omega (arith, b.0), b.1)) s h

module _ (field spec : Text) (low high : ℕ) where
  parse_value-decimal :
      (names : List Text) (n : ℕ)
      → low ≤ n
      → n ≤ high
      → high < 64
      → parse_value field spec low high names (decimal n) ≡ ok n
  unfolding parse_value
  parse_value-decimal names n above below small =
      let trimmed = trim-id (decimal n) (IsVisible-token (decimal n) (IsToken-decimal n).1) in
      let unnamed = no_name (decimal n) names (full-decimal n) (IsDigit-decimal n) in
      let read = parse_u32-decimal n (omega arith) in
      let inside : (ltb n low || ltb high n) ≡ false = ground arith in
      rw (trimmed, unnamed, trimmed, read, inside, parse_value) refl

  abbrev ReadsName : List Text → Value → Type 0
  ReadsName names (token, value) =
      IsToken token × (parse_value field spec low high names token ≡ ok value)

  month_reads : All (ReadsName month_names) month_values
  unfolding parse_value list_beq ascii_lower
  month_reads = (
    ((refl, omega arith), refl),
    (
      ((refl, omega arith), refl),
      (
        ((refl, omega arith), refl),
        (
          ((refl, omega arith), refl),
          (
            ((refl, omega arith), refl),
            (
              ((refl, omega arith), refl),
              (
                ((refl, omega arith), refl),
                (
                  ((refl, omega arith), refl),
                  (
                    ((refl, omega arith), refl),
                    (
                      ((refl, omega arith), refl),
                      (((refl, omega arith), refl), (((refl, omega arith), refl), tt)),
                    ),
                  ),
                ),
              ),
            ),
          ),
        ),
      ),
    ),
  )

  weekday_reads : All (ReadsName dow_names) dow_values
  unfolding parse_value list_beq ascii_lower
  weekday_reads = (
    ((refl, omega arith), refl),
    (
      ((refl, omega arith), refl),
      (
        ((refl, omega arith), refl),
        (
          ((refl, omega arith), refl),
          (
            ((refl, omega arith), refl),
            (((refl, omega arith), refl), (((refl, omega arith), refl), tt)),
          ),
        ),
      ),
    ),
  )

  Named-reads :
      (names : List Text) (named : List Value) → Named names named → All (ReadsName names) named
  Named-reads _ _ no_names = tt
  Named-reads _ _ months = month_reads
  Named-reads _ _ weekdays = weekday_reads

  -- A value that is written in digits or as a name of the field is read as itself.
  pub IsValue-reads :
      (names : List Text) (named : List Value) (v : Value)
      → Named names named
      → high < 64
      → IsValue low high named v
      → IsToken v.0 × (parse_value field spec low high names v.0 ≡ ok v.1)
  IsValue-reads names named (token, n) table small ((above, below), inl digits) =
      subst (λ t. IsToken t × (parse_value field spec low high names t ≡ ok n)) (sym digits)
        ((IsToken-decimal n, parse_value-decimal names n above below small))
  IsValue-reads names named (token, n) table small (inside, inr name) =
      All-Within (ReadsName names) named (Named-reads names named table) name
