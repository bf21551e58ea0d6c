-- ===== src/Mask/Reader.antt =====
-- engine/src/mask/mod.rs: a reader of the SQL that knows only of quotes, and what it finds in the
-- fragments that a statement is made of.
use mysql_ssh_db_sync.Prelude.{
  ℕ, suc, ◌+◌, ◌≡◌, refl, sym, ap, subst, ◌∙◌, inl, inr, Option, none, some, [], ◌∷◌, ◌++◌, Bool,
  true, false, ◌||◌, Text, nat_beq, if◌then◌else◌, arith, All, replace, replace-hit, replace-miss,
  Bool-cases, decimal, IsDigit, IsDigit-decimal,
}
use mysql_ssh_db_sync.Mask.Statements.{SqlDialect, mysql, postgres, quoted, placeholder}

-- What opens a quote, and what a placeholder starts with.
abbrev pub is_quote : SqlDialect → ℕ → Bool
is_quote mysql c = nat_beq c 96 || nat_beq c 39 || nat_beq c 34
is_quote postgres c = nat_beq c 39 || nat_beq c 34

abbrev pub mark : SqlDialect → ℕ
mark mysql = 63
mark postgres = 36

module _ (d : SqlDialect) where
  -- The quote that is open behind a character.
  abbrev pub next_quote : Option ℕ → ℕ → Option ℕ
  next_quote none c = if is_quote d c then some c else none
  next_quote (some q) c = if nat_beq c q then none else some q

  abbrev pub is_mark : Option ℕ → ℕ → Bool
  is_mark none c = nat_beq c (mark d)
  is_mark (some q) c = false

  unfoldable pub quote_after : Option ℕ → Text → Option ℕ
  quote_after q [] = q
  quote_after q (c ∷ s) = quote_after (next_quote q c) s

  -- How many placeholders stand outside every quote.
  unfoldable pub placeholders : Option ℕ → Text → ℕ
  placeholders q [] = 0
  placeholders q (c ∷ s) =
      let rest = placeholders (next_quote q c) s in if is_mark q c then suc rest else rest

  -- A fragment that closes each quote that it opens.
  abbrev pub Closed : ℕ → Text → Type 0
  Closed k s = (quote_after none s ≡ none) × (placeholders none s ≡ k)

  quote_after-append :
      (q : Option ℕ) (s t : Text) → quote_after q (s ++ t) ≡ quote_after (quote_after q s) t
  unfolding quote_after
  quote_after-append q [] t = refl
  quote_after-append q (c ∷ s) t = quote_after-append (next_quote q c) s t

  placeholders-append :
      (q : Option ℕ) (s t : Text)
      → placeholders q (s ++ t) ≡ placeholders q s + placeholders (quote_after q s) t
  unfolding quote_after placeholders
  placeholders-append q [] t = omega arith
  placeholders-append q (c ∷ s) t = ground (arith, placeholders-append (next_quote q c) s t)

  pub Closed-append : {k l : ℕ} (s t : Text) → Closed k s → Closed l t → Closed (k + l) (s ++ t)
  Closed-append {k} {l} s t h j = (
    quote_after-append none s t ∙ ap (λ q. quote_after q t) h.0 ∙ j.0,
    placeholders-append none s t
        ∙ ap (λ q. placeholders none s + placeholders q t) h.0
        ∙ omega (arith, h.1, j.1),
  )

  module _ (q : ℕ) (opens : is_quote d q ≡ true) (plain : nat_beq q (mark d) ≡ false) where
    abbrev doubled : Text → Text
    doubled s = replace (q ∷ []) (q ∷ q ∷ []) 0 s

    closes_then_opens :
        (t : Text)
        → (quote_after (some q) (q ∷ q ∷ t) ≡ quote_after (some q) t)
          × (placeholders (some q) (q ∷ q ∷ t) ≡ placeholders (some q) t)
    unfolding quote_after placeholders
    closes_then_opens t =
        let shut : next_quote (some q) q ≡ none = ground arith in
        let open' : next_quote none q ≡ some q = ground (arith, opens) in
        (
          ap (λ o. quote_after (next_quote o q) t) shut ∙ ap (λ o. quote_after o t) open',
          ap
                (λ o.
                  let rest = placeholders (next_quote o q) t in
                  (if is_mark o q then suc rest else rest))
                shut
              ∙ ap
                  (λ b.
                    let rest = placeholders (next_quote none q) t in (if b then suc rest else rest))
                  plain
              ∙ ap (λ o. placeholders o t) open',
        )

    stays_inside :
        (c : ℕ) (t : Text)
        → nat_beq q c ≡ false
        → (quote_after (some q) (c ∷ t) ≡ quote_after (some q) t)
          × (placeholders (some q) (c ∷ t) ≡ placeholders (some q) t)
    unfolding quote_after placeholders
    stays_inside c t h =
        let inside : next_quote (some q) c ≡ some q = ground (arith, h) in
        (ap (λ o. quote_after o t) inside, ap (λ o. placeholders o t) inside)

    abbrev ClosesQuote : Text → Type 0
    ClosesQuote t = (quote_after (some q) t ≡ none) × (placeholders (some q) t ≡ 0)

    ClosesQuote-doubled : (s : Text) → ClosesQuote (doubled s ++ (q ∷ []))
    ClosesQuote-doubled [] = unfold replace quote_after placeholders in (ground arith, ground arith)
    ClosesQuote-doubled (c ∷ s) =
        let rest = ClosesQuote-doubled s in
        elim (Bool-cases (nat_beq q c)) [
          | inl same ↦
              let twice = closes_then_opens (doubled s ++ (q ∷ [])) in
              subst (λ t. ClosesQuote (t ++ (q ∷ []))) (sym (replace-hit q c (q ∷ q ∷ []) s same))
                ((twice.0 ∙ rest.0, twice.1 ∙ rest.1))
          | inr other ↦
              let inside = stays_inside c (doubled s ++ (q ∷ [])) other in
              subst (λ t. ClosesQuote (t ++ (q ∷ [])))
                (sym (replace-miss q c [] (q ∷ q ∷ []) s other))
                ((inside.0 ∙ rest.0, inside.1 ∙ rest.1))
        ]

    -- A quoted name, whatever it holds, has no placeholder and leaves no quote open.
    pub Closed-quoted : (ident : Text) → Closed 0 (quoted q ident)
    unfolding quoted
    Closed-quoted ident =
        let rest = ClosesQuote-doubled ident in
        let open' : next_quote none q ≡ some q = ground (arith, opens) in
        (
          unfold quote_after in ap (λ o. quote_after o (doubled ident ++ (q ∷ []))) open' ∙ rest.0,
          unfold placeholders in
              ap
                (λ b.
                  let rest = placeholders (next_quote none q) (doubled ident ++ (q ∷ [])) in
                  (if b then suc rest else rest))
                plain
              ∙ ap (λ o. placeholders o (doubled ident ++ (q ∷ []))) open'
              ∙ rest.1,
        )

digit_plain :
    (d : SqlDialect) (c : ℕ) → IsDigit c → (is_quote d c ≡ false) × (nat_beq c (mark d) ≡ false)
digit_plain mysql c h = ground (arith, h)
digit_plain postgres c h = ground (arith, h)

Closed-digits : (d : SqlDialect) (s : Text) → All IsDigit s → Closed d 0 s
unfolding quote_after placeholders
Closed-digits d [] h = (refl, refl)
Closed-digits d (c ∷ s) h = ground (arith, Closed-digits d s h.1, digit_plain d c h.0)

pub Closed-decimal : (d : SqlDialect) (n : ℕ) → Closed d 0 (decimal n)
Closed-decimal d n = Closed-digits d (decimal n) (IsDigit-decimal n)

pub Closed-placeholder : (d : SqlDialect) (n : ℕ) → Closed d 1 (placeholder d n)
unfolding placeholder quote_after placeholders
Closed-placeholder mysql n = (refl, refl)
Closed-placeholder postgres n =
    Closed-append postgres (36 ∷ []) (decimal n) ((refl, refl)) (Closed-decimal postgres n)
