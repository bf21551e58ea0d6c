-- ===== src/Cron/Selection.antt =====
-- engine/src/cron.rs: a field that is written as the grammar says is accepted, and selects what its
-- parts mean.
use mysql_ssh_db_sync.Prelude.{
  ℕ, zero, suc, ◌+◌, ◌^◌, ◌≤◌, ◌<◌, ◌≡◌, refl, ap, ◌∙◌, ◌≢◌, Bool, true, false, ◌&&◌, ◌||◌, List,
  [], ◌∷◌, map, Option, none, some, Text, text, leb, nat_beq, arith, any, All, Lacks, split-join,
  starts_with, ok,
}
use mysql_ssh_db_sync.Cron.{has}
use mysql_ssh_db_sync.Cron.Bits.{has-zero}
use mysql_ssh_db_sync.Cron.Values.{selects, add_values-selects}
use mysql_ssh_db_sync.Cron.Parse.{add_values, parse_parts, parse_field}
use mysql_ssh_db_sync.Cron.Grammar.{
  Value, Named, Range, Part, part_text, field_text, IsRange, IsStep, IsPart, meaning,
}
use mysql_ssh_db_sync.Cron.Parts.{Lacks-part_text, parse_part-part_text}

any-map :
    {A B : Type 0} (p : B → Bool) (f : A → B) (xs : List A)
    → any p (map f xs) ≡ any (λ x. p (f x)) xs
any-map p f [] = refl
any-map p f (x ∷ xs) = ap (λ b. p (f x) || b) (any-map p f xs)

-- The loop over the parts, once they are read.
abbrev add_all : List (ℕ × ℕ × ℕ) → ℕ → ℕ
add_all [] bits = bits
add_all (r ∷ rs) bits = add_all rs (add_values r bits)

module _ (low high : ℕ) (small : high < 64) where
  -- A range inside that of the field, with a step that keeps its values below the end of a `u32`.
  abbrev Fits : ℕ × ℕ × ℕ → Type 0
  Fits (lo, hi, step) = (low ≤ lo × lo ≤ hi × hi ≤ high) × (0 < step × high + step < 2 ^ 32)

  add_all-selects :
      (rs : List (ℕ × ℕ × ℕ)) (bits u : ℕ)
      → All (Fits) rs
      → has (add_all rs bits) u ≡ (has bits u || any (selects u) rs)
  add_all-selects [] bits u h = ground arith
  add_all-selects ((lo, hi, step) ∷ rs) bits u h =
      add_all-selects rs (add_values (lo, hi, step) bits) u h.1
      ∙ ground (
        arith,
        add_values-selects lo hi step bits u (omega (arith, h.0)) h.0.1.0 (omega (arith, h.0)),
      )

  selects_inside :
      (u : ℕ) (r : ℕ × ℕ × ℕ) → Fits r → selects u r ≡ ((leb low u && leb u high) && selects u r)
  unfolding selects
  selects_inside u (lo, hi, step) h = ground (arith, h)

  any_inside :
      (rs : List (ℕ × ℕ × ℕ)) (u : ℕ)
      → All (Fits) rs
      → any (selects u) rs ≡ ((leb low u && leb u high) && any (selects u) rs)
  any_inside [] u h = ground arith
  any_inside (r ∷ rs) u h = ground (arith, selects_inside u r h.0, any_inside rs u h.1)

  selects_lo : (lo hi step : ℕ) → Fits (lo, hi, step) → selects lo (lo, hi, step) ≡ true
  unfolding selects
  selects_lo lo hi step h = ground (arith, h)

  add_all-ne-zero :
      (r : ℕ × ℕ × ℕ) (rs : List (ℕ × ℕ × ℕ)) → All Fits (r ∷ rs) → add_all (r ∷ rs) 0 ≢ 0
  add_all-ne-zero (lo, hi, step) rs h zero' =
      let hit = add_all-selects ((lo, hi, step) ∷ rs) 0 lo h in
      absurd
        (ground (arith, hit, ap (λ set. has set lo) zero', has-zero lo, selects_lo lo hi step h.0))

module _ (field : Text) (low high : ℕ) (names : List Text) (named : List Value)
    (table : Named names named) (small : high < 64) where
  -- What a part selects, as its first value, its last and its step.
  abbrev pub part_meaning : Part → ℕ × ℕ × ℕ
  part_meaning p = meaning low high p.range p.step

  Fits-meaning :
      (range : Range) (step : Option ℕ)
      → IsRange low high named range
      → IsStep high step
      → Fits low high small (meaning low high range step)
  Fits-meaning Range.every none h k = omega (arith, h)
  Fits-meaning Range.every (some step) h k = omega (arith, h, k)
  Fits-meaning (Range.single v) none h k = omega (arith, h.0)
  Fits-meaning (Range.single v) (some zero) h k = absurd (omega (arith, k))
  Fits-meaning (Range.single v) (some (suc zero)) h k = omega (arith, h.0, k)
  Fits-meaning (Range.single v) (some (suc (suc n))) h k = omega (arith, h.0, k)
  Fits-meaning (Range.span a b) none h k = omega (arith, h.0.0, h.1.0, h.2)
  Fits-meaning (Range.span a b) (some step) h k = omega (arith, h.0.0, h.1.0, h.2, k)

  Fits-parts :
      (parts : List Part)
      → All (IsPart low high named) parts
      → All (Fits low high small) (map part_meaning parts)
  Fits-parts [] h = tt
  Fits-parts (p ∷ parts) h = (Fits-meaning p.range p.step h.0.0 h.0.1, Fits-parts parts h.1)

  parse_parts-part_text :
      (spec : Text) (parts : List Part) (bits : ℕ)
      → All (IsPart low high named) parts
      → parse_parts field spec low high names (map part_text parts) bits
        ≡ ok (add_all (map part_meaning parts) bits)
  unfolding parse_parts
  parse_parts-part_text spec [] bits h = refl
  parse_parts-part_text spec (p ∷ parts) bits h =
      rw (parse_part-part_text field spec low high names named table small p h.0)
        (parse_parts-part_text spec parts (add_values (part_meaning p) bits) h.1)

  Lacks-parts :
      (parts : List Part) → All (IsPart low high named) parts → All (Lacks 44) (map part_text parts)
  Lacks-parts [] h = tt
  Lacks-parts (p ∷ parts) h =
      (Lacks-part_text field [] low high names named table small p h.0, Lacks-parts parts h.1)

  -- A field of an expression that consists of parts with commas between, where each part is a `*`, a
  -- value or two values with a dash between, perhaps with a step behind a slash, and each value is a
  -- number or a name of the field in three small letters, is accepted, if the values lie in the range
  -- of the field, no range runs backwards, and no step is zero or takes a value to the end of a `u32`.
  -- Its bits are the values that one of its parts means: every value, the one given, or those from the
  -- first to the last, each time in steps from the first; a single value with a step of two or more
  -- goes on to the end of the field. Its star flag says whether the text begins with `*`.
  pub parse_field-selects :
      (p : Part) (parts : List Part)
      → All (IsPart low high named) (p ∷ parts)
      → (bits : ℕ) × (parse_field field (field_text (p ∷ parts)) low high names
          ≡ ok (bits, starts_with (text "*") (field_text (p ∷ parts))))
        × ((u : ℕ) → has bits u ≡ any (λ q. selects u (part_meaning q)) (p ∷ parts))
  unfolding parse_field
  parse_field-selects p parts h =
      let spec = field_text (p ∷ parts) in
      let rs = map part_meaning (p ∷ parts) in
      let fit = Fits-parts (p ∷ parts) h in
      let cut = split-join 44 (map part_text (p ∷ parts)) (λ e. cc) (Lacks-parts (p ∷ parts) h) in
      let read = parse_parts-part_text spec (p ∷ parts) 0 h in
      let nonzero : nat_beq (add_all rs 0) 0 ≡ false =
        ground
          (arith, add_all-ne-zero low high small (part_meaning p) (map part_meaning parts) fit) in
      (
        add_all rs 0,
        rw (cut, read) (rw nonzero refl),
        λ u.
            add_all-selects low high small rs 0 u fit
            ∙ ground (arith, has-zero u, any-map (selects u) part_meaning (p ∷ parts)),
      )
