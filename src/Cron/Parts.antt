-- ===== src/Cron/Parts.antt =====
-- engine/src/cron.rs: a part of a field is read as what it means.
use mysql_ssh_db_sync.Prelude.{
  ℕ, zero, suc, ◌≤◌, ◌<◌, ◌≡◌, ◌≢◌, refl, ap, subst, ◌∙◌, append-nil, true, false, ◌==◌, list_eq,
  nat_eq, Option, none, some, List, [], ◌∷◌, ◌++◌, Text, text, ltb, nat_beq, is_empty,
  if◌then◌else◌, All, All-map, Lacks, split_once-append, list_beq, ok, ◌>>=◌, decimal, arith,
}
use mysql_ssh_db_sync.Cron.Parse.{
  parse_value, step_of, parse_step, ends_of, parse_range, parse_nonblank, parse_part,
}
use mysql_ssh_db_sync.Cron.Grammar.{
  Value, Named, IsValue, Range, Part, range_text, step_text, part_text, IsRange, IsStep, IsPart,
  meaning,
}
use mysql_ssh_db_sync.Cron.Tokens.{
  IsTokenChar, IsToken, IsVisible, trim-id, split_once-none, IsToken-decimal, parse_u32-decimal,
  IsValue-reads,
}

-- The characters of a range, and those of a part.
abbrev IsRangeChar : ℕ → Type 0
IsRangeChar c = (42 ≤ c × c ≤ 122) × (c ≢ 44 × c ≢ 47)

abbrev IsPartChar : ℕ → Type 0
IsPartChar c = (42 ≤ c × c ≤ 122) × c ≢ 44

All-append : {A : Type 0} (P : A → Type 0) (xs ys : List A) → All P xs → All P ys → All P (xs ++ ys)
All-append P [] ys h k = k
All-append P (x ∷ xs) ys h k = (h.0, All-append P xs ys h.1 k)

range_chars : (s : Text) → All IsTokenChar s → All IsRangeChar s
range_chars s h = All-map IsTokenChar IsRangeChar (λ c b. (omega (arith, b), omega (arith, b))) s h

full_append : (s t : Text) → is_empty s ≡ false → is_empty (s ++ t) ≡ false
full_append [] t h = cc
full_append (c ∷ s) t h = refl

-- A token is no star, nor does one stand in front of it.
no_star : (s t : Text) → IsToken s → (s ++ t == text "*") ≡ false
unfolding list_beq
no_star [] t h = absurd (let wrong = h.0 in cc)
no_star (c ∷ s) t h = let other : nat_beq c 42 ≡ false = ground (arith, h.1.0) in rw other refl

module _ (field spec : Text) (low high : ℕ) (names : List Text) (named : List Value)
    (table : Named names named) (small : high < 64) where
  abbrev token_reads :
      (v : Value)
      → IsValue low high named v
      → IsToken v.0 × (parse_value field spec low high names v.0 ≡ ok v.1)
  token_reads v h = IsValue-reads field spec low high names named v table small h

  range_text-chars :
      (r : Range)
      → IsRange low high named r
      → (is_empty (range_text r) ≡ false) × All IsRangeChar (range_text r)
  range_text-chars Range.every h = (refl, omega arith)
  range_text-chars (Range.single (a, v)) h =
      let token = (token_reads (a, v) h).0 in (token.0, range_chars a token.1)
  range_text-chars (Range.span (a, lo) (b, hi)) h =
      let first = (token_reads (a, lo) h.0).0 in
      let last = (token_reads (b, hi) h.1).0 in
      (
        full_append a (45 ∷ b) first.0,
        All-append IsRangeChar a (45 ∷ b) (range_chars a first.1)
            ((omega arith, range_chars b last.1)),
      )

  -- The step that a part has.
  abbrev step_value : Option ℕ → ℕ
  step_value none = 1
  step_value (some step) = step

  parse_step-part_text :
      (range : Text) (step : Option ℕ)
      → All IsRangeChar range
      → IsStep high step
      → parse_step field spec low high names (step_text range step) ≡ ok (range, step_value step)
  parse_step-part_text range none h k =
      let whole = split_once-none 47 range (All-map IsRangeChar _ (λ c b. b.1.1) range h) in
      ap (step_of field spec low high names range) whole
  parse_step-part_text range (some step) h k =
      let cut =
        split_once-append 47 range (decimal step) (All-map IsRangeChar _ (λ c b. b.1.1) range h) in
      let read = parse_u32-decimal step (omega (arith, k)) in
      let positive : nat_beq step 0 ≡ false = ground (arith, k) in
      ap (step_of field spec low high names (range ++ (47 ∷ decimal step))) cut
      ∙ rw (read, positive) refl

  abbrev ends : ℕ × ℕ × ℕ → ℕ × ℕ
  ends (lo, hi, step) = (lo, hi)

  no_dash : (s : Text) → All IsTokenChar s → Lacks 45 s
  no_dash s h = All-map IsTokenChar _ (λ c b. omega (arith, b)) s h

  parse_range-single :
      (a : Text) (v step : ℕ)
      → IsValue low high named (a, v)
      → parse_range field spec low high names a step ≡ ok (if ltb 1 step then (v, high) else (v, v))
  parse_range-single a v step h =
      let (token, read) = token_reads (a, v) h in
      let plain : (a == text "*") ≡ false =
        subst (λ t. (t == text "*") ≡ false) (append-nil a) (no_star a [] token) in
      let whole = split_once-none 45 a (no_dash a token.1) in
      rw plain (
        ap (ends_of field spec low high names a step) whole
        ∙ ap (λ r. r >>= λ v. ok (if ltb 1 step then (v, high) else (v, v))) read)

  parse_range-span :
      (a b : Text) (lo hi step : ℕ)
      → IsRange low high named (Range.span (a, lo) (b, hi))
      → parse_range field spec low high names (a ++ (45 ∷ b)) step ≡ ok (lo, hi)
  parse_range-span a b lo hi step (h, k, le) =
      let (token, read) = token_reads (a, lo) h in
      let (token', read') = token_reads (b, hi) k in
      let cut = split_once-append 45 a b (no_dash a token.1) in
      let ordered : ltb hi lo ≡ false = ground (arith, le) in
      rw (no_star a (45 ∷ b) token) (
        ap (ends_of field spec low high names (a ++ (45 ∷ b)) step) cut
        ∙ rw (read, read', ordered) refl)

  parse_nonblank-ok :
      (part range : Text) (lo hi step : ℕ)
      → parse_step field spec low high names part ≡ ok (range, step)
      → parse_range field spec low high names range step ≡ ok (lo, hi)
      → parse_nonblank field spec low high names part ≡ ok (lo, hi, step)
  parse_nonblank-ok part range lo hi step e k =
      ap
        (λ r. r >>= λ (range_spec, step).
          parse_range field spec low high names range_spec step >>= λ (lo, hi). ok (lo, hi, step))
        e
      ∙ ap (λ r. r >>= λ (lo, hi). ok (lo, hi, step)) k

  range_reads :
      (range : Range) (step : Option ℕ)
      → IsRange low high named range
      → IsStep high step
      → parse_range field spec low high names (range_text range) (step_value step)
        ≡ ok (ends (meaning low high range step))
  unfolding list_beq
  range_reads Range.every none h k = refl
  range_reads Range.every (some step) h k = refl
  range_reads (Range.single (a, v)) none h k = parse_range-single a v 1 h
  range_reads (Range.single (a, v)) (some zero) h k = absurd (omega (arith, k))
  range_reads (Range.single (a, v)) (some (suc zero)) h k = parse_range-single a v 1 h
  range_reads (Range.single (a, v)) (some (suc (suc n))) h k =
      let long : ltb 1 (suc (suc n)) ≡ true = ground arith in
      parse_range-single a v (suc (suc n)) h ∙ ap (λ b. ok (if b then (v, high) else (v, v))) long
  range_reads (Range.span (a, lo) (b, hi)) none h k = parse_range-span a b lo hi 1 h
  range_reads (Range.span (a, lo) (b, hi)) (some step) h k = parse_range-span a b lo hi step h

  with_step :
      (range : Range) (step : Option ℕ)
      → IsStep high step
      → (
        (ends (meaning low high range step)).0,
        (ends (meaning low high range step)).1,
        step_value step,
      )
        ≡ meaning low high range step
  with_step Range.every none k = refl
  with_step Range.every (some step) k = refl
  with_step (Range.single v) none k = refl
  with_step (Range.single v) (some zero) k = absurd (omega (arith, k))
  with_step (Range.single v) (some (suc zero)) k = refl
  with_step (Range.single v) (some (suc (suc n))) k = refl
  with_step (Range.span a b) none k = refl
  with_step (Range.span a b) (some step) k = refl

  step_text-chars :
      (range : Text) (step : Option ℕ)
      → (is_empty range ≡ false) × All IsRangeChar range
      → (is_empty (step_text range step) ≡ false) × All IsPartChar (step_text range step)
  step_text-chars range none (full, h) =
      (full, All-map IsRangeChar IsPartChar (λ c b. (b.0, b.1.0)) range h)
  step_text-chars range (some step) (full, h) = (
    full_append range (47 ∷ decimal step) full,
    All-append IsPartChar range (47 ∷ decimal step)
        (All-map IsRangeChar IsPartChar (λ c b. (b.0, b.1.0)) range h)
        ((
          omega arith,
          All-map IsTokenChar IsPartChar (λ c b. omega (arith, b)) (decimal step)
              (IsToken-decimal step).1,
        )),
  )

  part_text-chars :
      (p : Part)
      → IsPart low high named p
      → (is_empty (part_text p) ≡ false) × All IsPartChar (part_text p)
  part_text-chars p h = step_text-chars (range_text p.range) p.step (range_text-chars p.range h.0)

  -- No part holds a comma.
  pub Lacks-part_text : (p : Part) → IsPart low high named p → Lacks 44 (part_text p)
  Lacks-part_text p h = All-map IsPartChar _ (λ c b. b.1) (part_text p) (part_text-chars p h).1

  pub parse_part-part_text :
      (p : Part)
      → IsPart low high named p
      → parse_part field spec low high names (part_text p) ≡ ok (meaning low high p.range p.step)
  unfolding parse_part
  parse_part-part_text p h =
      let (full, chars) = part_text-chars p h in
      let trimmed =
        trim-id (part_text p)
          (All-map IsPartChar IsVisible (λ c b. omega (arith, b)) (part_text p) chars) in
      let stepped =
        parse_step-part_text (range_text p.range) p.step (range_text-chars p.range h.0).1 h.1 in
      let ranged = range_reads p.range p.step h.0 h.1 in
      rw (trimmed, full)
        (parse_nonblank-ok (part_text p) (range_text p.range) _ _ (step_value p.step) stepped ranged
          ∙ ap ok (with_step p.range p.step h.1))
