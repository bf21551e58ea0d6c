-- ===== src/S3/Escapes.antt =====
-- engine/src/s3/xml.rs: `unescape` undoes `escape`, and the values of a document are read back.
use mysql_ssh_db_sync.Prelude.{
  ℕ, ◌≡◌, refl, sym, ap, subst, ◌∙◌, inl, inr, [], ◌∷◌, ◌++◌, arith, Text, text, nat_beq,
  strip_prefix, replace, replace-miss, replace-append, Lacks, Lacks-append, false, Bool-cases,
  nat_beq_iff,
}
use mysql_ssh_db_sync.S3.Xml.{escape, unescape}

escape-append : (s t : Text) → escape (s ++ t) ≡ escape s ++ escape t
unfolding escape
escape-append s t =
    rw
      (
        replace-append 38 (text "&amp;") s t,
        replace-append 60 (text "&lt;") _ _,
        replace-append 62 (text "&gt;") _ _,
        replace-append 34 (text "&quot;") _ _,
        replace-append 39 (text "&apos;") _ _,
      )
      refl

-- No other character has an entity.
abbrev IsPlain : ℕ → Type 0
IsPlain c =
    (nat_beq 38 c ≡ false)
    × (nat_beq 60 c ≡ false)
    × (nat_beq 62 c ≡ false)
    × (nat_beq 34 c ≡ false)
    × (nat_beq 39 c ≡ false)

replace-plain :
    (p c : ℕ) (ps to : Text) → nat_beq p c ≡ false → replace (p ∷ ps) to 0 (c ∷ []) ≡ c ∷ []
replace-plain p c ps to h = replace-miss p c ps to [] h ∙ unfold replace in refl

escape-plain : (c : ℕ) → IsPlain c → escape (c ∷ []) ≡ c ∷ []
unfolding escape
escape-plain c (h38, h60, h62, h34, h39) =
    rw
      (
        replace-plain 38 c [] (text "&amp;") h38,
        replace-plain 60 c [] (text "&lt;") h60,
        replace-plain 62 c [] (text "&gt;") h62,
        replace-plain 34 c [] (text "&quot;") h34,
        replace-plain 39 c [] (text "&apos;") h39,
      )
      refl

unescape-plain : (c : ℕ) (s : Text) → IsPlain c → unescape (c ∷ s) ≡ c ∷ unescape s
unfolding unescape
unescape-plain c s h =
    rw
      (
        replace-miss 38 c (text "lt;") (text "<") s h.0,
        replace-miss 38 c (text "gt;") (text ">") _ h.0,
        replace-miss 38 c (text "quot;") (text "\"") _ h.0,
        replace-miss 38 c (text "apos;") (text "'") _ h.0,
        replace-miss 38 c (text "amp;") (text "&") _ h.0,
      )
      refl

at-or : (P : ℕ → Type 0) (k c : ℕ) → P k → (nat_beq k c ≡ false → P c) → P c
at-or P k c h other = elim (Bool-cases (nat_beq k c)) [
  | inl same ↦ subst P ((nat_beq_iff k c).0 same) h
  | inr ne ↦ other ne
]

char-cases :
    (P : ℕ → Type 0)
    → P 38
    → P 60
    → P 62
    → P 34
    → P 39
    → ((c : ℕ) → IsPlain c → P c)
    → (c : ℕ) → P c
char-cases P p38 p60 p62 p34 p39 plain c = at-or P 38 c p38 λ h38. at-or P 60 c p60 λ h60.
    at-or P 62 c p62
      λ h62. at-or P 34 c p34 λ h34. at-or P 39 c p39 λ h39. plain c (h38, h60, h62, h34, h39)

unescape-escape_char : (s : Text) (c : ℕ) → unescape (escape (c ∷ []) ++ s) ≡ c ∷ unescape s
unfolding unescape escape replace strip_prefix
unescape-escape_char s =
    char-cases (λ c. unescape (escape (c ∷ []) ++ s) ≡ c ∷ unescape s) refl refl refl refl refl
      (λ c h. ap (λ e. unescape (e ++ s)) (escape-plain c h) ∙ unescape-plain c s h)

-- A text that is escaped for the body of a request is read back as it was.
pub unescape-escape : (s : Text) → unescape (escape s) ≡ s
unescape-escape [] = unfold unescape escape replace in refl
unescape-escape (c ∷ s) =
    ap unescape (escape-append (c ∷ []) s)
    ∙ unescape-escape_char (escape s) c
    ∙ ap (◌∷◌ c) (unescape-escape s)

Lacks-escape_char : (c : ℕ) → Lacks 60 (escape (c ∷ []))
unfolding escape replace strip_prefix
Lacks-escape_char =
    char-cases (λ c. Lacks 60 (escape (c ∷ []))) (omega arith) (omega arith) (omega arith)
      (omega arith) (omega arith)
      (λ c h. subst (Lacks 60) (sym (escape-plain c h)) ((λ e. absurd (ground (arith, h, e))), tt))

-- What is escaped opens and closes no tag.
pub Lacks-escape : (s : Text) → Lacks 60 (escape s)
Lacks-escape [] = unfold escape replace in tt
Lacks-escape (c ∷ s) =
    subst (Lacks 60) (sym (escape-append (c ∷ []) s))
      (Lacks-append 60 (escape (c ∷ [])) (escape s) (Lacks-escape_char c) (Lacks-escape s))
