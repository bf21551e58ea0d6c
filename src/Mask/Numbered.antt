-- ===== src/Mask/Numbered.antt =====
-- engine/src/mask/mod.rs: texts whose placeholders are numbered in the order in which they stand, as
-- `Placeholders` hands them out.
use mysql_ssh_db_sync.Prelude.{
  ℕ, ◌+◌, ◌≡◌, subst, Bool, true, false, not, [], ◌∷◌, ◌++◌, Text, is_ascii_digit, arith,
}
use mysql_ssh_db_sync.Mask.Statements.{SqlDialect, placeholder}
use mysql_ssh_db_sync.Mask.Reader.{Closed, Closed-append, Closed-placeholder}

-- A text that ends a number which stands in front of it.
abbrev pub separates : Text → Bool
separates [] = false
separates (c ∷ s) = not (is_ascii_digit c)

-- `Numbered d last n k s`: the text consists of parts with no placeholder, each of which closes each
-- quote that it opens, and of `k` placeholders between them, which are those of the numbers from `n`
-- on, in this order. If `last` is true, it ends with a placeholder, whose number a digit would change.
pub data Numbered (d : SqlDialect) : Bool → ℕ → ℕ → Text → Type 0 where
  plain : {n : ℕ} {s : Text} → Closed d 0 s → Numbered d false n 0 s
  mark : {n : ℕ} → Numbered d true n 1 (placeholder d n)
  append :
      {last end : Bool} {n k l : ℕ} {s t : Text}
      → Numbered d last n k s
      → Numbered d end (n + k) l t
      → (last ≡ true → separates t ≡ true)
      → Numbered d end n (k + l) (s ++ t)

pub Numbered-Closed :
    {d : SqlDialect} {last : Bool} {n k : ℕ} {s : Text} → Numbered d last n k s → Closed d k s
Numbered-Closed (plain h) = h
Numbered-Closed {d = d} (mark {n}) = Closed-placeholder d n
Numbered-Closed {d = d} (append {s = s} {t = t} h k _) =
    Closed-append d s t (Numbered-Closed h) (Numbered-Closed k)

module _ (d : SqlDialect) {n k : ℕ} where
  -- A text with no placeholder, and a numbered one.
  pub ahead :
      {last : Bool} (s t : Text)
      → Closed d 0 s
      → Numbered d last n k t
      → Numbered d last n k (s ++ t)
  ahead {last} s t h j =
      subst (λ l. Numbered d last n l (s ++ t)) (omega arith)
        (append {n = n} (plain h) (subst (λ m. Numbered d last m k t) (omega arith) j) (λ e. cc))

  -- A numbered text, and one with no placeholder that separates.
  pub shut :
      {last : Bool} (s t : Text)
      → Numbered d last n k s
      → Closed d 0 t
      → separates t ≡ true
      → Numbered d false n k (s ++ t)
  shut s t h j e =
      subst (λ l. Numbered d false n l (s ++ t)) (omega arith) (append h (plain j) (λ _. e))

  -- A numbered text that does not end with a placeholder, and one with none.
  pub behind : (s t : Text) → Numbered d false n k s → Closed d 0 t → Numbered d false n k (s ++ t)
  behind s t h j =
      subst (λ l. Numbered d false n l (s ++ t)) (omega arith) (append h (plain j) (λ e. cc))

  pub wrap :
      {last : Bool} (a s b : Text)
      → Closed d 0 a
      → Numbered d last n k s
      → Closed d 0 b
      → separates b ≡ true
      → Numbered d false n k (a ++ s ++ b)
  wrap a s b ha hs hb e = shut (a ++ s) b (ahead a s ha hs) hb e

  -- A numbered text between fixed ones, and one with no placeholder.
  pub wrap_two :
      {last : Bool} (a s b t c : Text)
      → Closed d 0 a
      → Numbered d last n k s
      → Closed d 0 b
      → separates b ≡ true
      → Closed d 0 t
      → Closed d 0 c
      → Numbered d false n k (a ++ s ++ b ++ t ++ c)
  wrap_two a s b t c ha hs hb e ht hc =
      behind (a ++ s ++ b ++ t) c (behind (a ++ s ++ b) t (wrap a s b ha hs hb e) ht) hc
