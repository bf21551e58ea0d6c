-- ===== src/Definer/Pieces.antt =====
-- engine/src/definer.rs: what a line of a dump is made of, and how its parts are read.
use mysql_ssh_db_sync.Prelude.{
  ℕ, ◌≡◌, refl, ap, ◌∙◌, Bool, true, false, ◌||◌, List, [], ◌∷◌, ◌++◌, Option, none, some, nat_beq,
  nat_beq_iff, All, Bytes, arith,
}
use mysql_ssh_db_sync.Definer.{
  clause_start, opens_quote, is_bare, is_escape, matches_ignore_ascii_case, Mode, begins_with,
  after_inside, after_quoted, scan_line, push,
}

-- What stands in quotes: a byte for itself, a doubled quote, or an escaped byte.
pub data Mark : Type 0 where
  letter : ℕ → Mark
  doubled : Mark
  escaped : ℕ → Mark

unfoldable pub spelling : ℕ → List Mark → Bytes
spelling q [] = []
spelling q (Mark.letter c ∷ ms) = c ∷ spelling q ms
spelling q (Mark.doubled ∷ ms) = q ∷ q ∷ spelling q ms
spelling q (Mark.escaped c ∷ ms) = 92 ∷ c ∷ spelling q ms

abbrev pub IsMark : ℕ → Mark → Type 0
IsMark q (Mark.letter c) = (is_escape q c ≡ false) × (nat_beq c q ≡ false)
IsMark q Mark.doubled = Unit
IsMark q (Mark.escaped c) = nat_beq q 96 ≡ false

pub data Name : Type 0 where
  in_quotes : ℕ → List Mark → Name
  bare : Bytes → Name

unfoldable pub IsName : Name → Type 0
IsName (Name.in_quotes q ms) = (opens_quote q ≡ true) × All (IsMark q) ms
IsName (Name.bare s) = All (λ c. is_bare c ≡ true) s

unfoldable pub name_text : Name → Bytes
unfolding spelling
name_text (Name.in_quotes q ms) = q ∷ spelling q ms ++ (q ∷ [])
name_text (Name.bare s) = s

-- A line: a byte outside of quotes, a literal, or a clause with a space behind it.
pub data Piece : Type 0 where
  other : ℕ → Piece
  literal : ℕ → List Mark → Piece
  definer : Name → Option Name → Piece

abbrev pub host_text : Option Name → Bytes
host_text none = []
host_text (some n) = 64 ∷ name_text n

unfoldable pub piece_text : Piece → Bytes
unfolding name_text spelling
piece_text (Piece.other c) = c ∷ []
piece_text (Piece.literal q ms) = q ∷ spelling q ms ++ (q ∷ [])
piece_text (Piece.definer user host) =
    clause_start ++ (name_text user ++ (host_text host ++ (32 ∷ [])))

unfoldable pub line_text : List Piece → Bytes
unfolding piece_text
line_text [] = []
line_text (p ∷ ps) = piece_text p ++ line_text ps

abbrev pub IsPiece : Piece → Bytes → Type 0
IsPiece (Piece.other c) rest =
    (opens_quote c ≡ false) × (matches_ignore_ascii_case (c ∷ rest) clause_start ≡ false)
IsPiece (Piece.literal q ms) rest =
    (opens_quote q ≡ true) × (All (IsMark q) ms × (begins_with q rest ≡ false))
IsPiece (Piece.definer user none) rest = IsName user
IsPiece (Piece.definer user (some host)) rest = IsName user × IsName host

-- The pieces are what the line reads as.
unfoldable pub IsLine : List Piece → Type 0
unfolding IsName matches_ignore_ascii_case begins_with line_text
IsLine [] = Unit
IsLine (p ∷ ps) = IsPiece p (line_text ps) × IsLine ps

-- The pieces without the clauses.
unfoldable pub kept : List Piece → List Piece
kept [] = []
kept (Piece.definer user host ∷ ps) = kept ps
kept (p ∷ ps) = p ∷ kept ps

abbrev pub is_clause : Piece → Bool
is_clause (Piece.definer user host) = true
is_clause _ = false

-- Whether a line has a clause.
unfoldable pub has_clause : List Piece → Bool
has_clause [] = false
has_clause (p ∷ ps) = is_clause p || has_clause ps

quote_no_escape : (q : ℕ) → opens_quote q ≡ true → is_escape q q ≡ false
quote_no_escape q h = ground arith

after_letter :
    (q c : ℕ) (s : Bytes)
    → is_escape q c ≡ false
    → nat_beq c q ≡ false
    → after_inside q c s ≡ Mode.inside q
unfolding after_inside
after_letter q c s h j = rw (h, j) refl

after_pair : (q : ℕ) (s : Bytes) → opens_quote q ≡ true → after_inside q q (q ∷ s) ≡ Mode.copied q
unfolding after_inside begins_with
after_pair q s h =
    let same : nat_beq q q ≡ true = (nat_beq_iff q q).1 refl in rw (quote_no_escape q h, same) refl

after_escape : (q : ℕ) (s : Bytes) → nat_beq q 96 ≡ false → after_inside q 92 s ≡ Mode.copied q
unfolding after_inside
after_escape q s h = rw h refl

after_close :
    (q : ℕ) (s : Bytes)
    → opens_quote q ≡ true
    → begins_with q s ≡ false
    → after_inside q q s ≡ Mode.outside
unfolding after_inside
after_close q s h j =
    let same : nat_beq q q ≡ true = (nat_beq_iff q q).1 refl in
    rw (quote_no_escape q h, same, j) refl

-- A name or a literal is left behind its last quote.
pub after_quoted-spelling :
    (q : ℕ) (ms : List Mark) (s : Bytes)
    → opens_quote q ≡ true
    → All (IsMark q) ms
    → begins_with q s ≡ false
    → after_quoted (Mode.inside q) (spelling q ms ++ (q ∷ s)) ≡ s
unfolding after_quoted spelling
after_quoted-spelling q [] s h all end = ap (λ m. after_quoted m s) (after_close q s h end)
after_quoted-spelling q (Mark.letter c ∷ ms) s h all end =
    ap (λ m. after_quoted m (spelling q ms ++ (q ∷ s))) (after_letter q c _ all.0.0 all.0.1)
    ∙ after_quoted-spelling q ms s h all.1 end
after_quoted-spelling q (Mark.doubled ∷ ms) s h all end =
    ap (λ m. after_quoted m (q ∷ spelling q ms ++ (q ∷ s)))
      (after_pair q (spelling q ms ++ (q ∷ s)) h)
    ∙ after_quoted-spelling q ms s h all.1 end
after_quoted-spelling q (Mark.escaped c ∷ ms) s h all end =
    ap (λ m. after_quoted m (c ∷ spelling q ms ++ (q ∷ s)))
      (after_escape q (c ∷ (spelling q ms ++ (q ∷ s))) all.0)
    ∙ after_quoted-spelling q ms s h all.1 end

pub scan_line-spelling :
    (q : ℕ) (ms : List Mark) (s : Bytes)
    → opens_quote q ≡ true
    → All (IsMark q) ms
    → begins_with q s ≡ false
    → scan_line (Mode.inside q) 0 (spelling q ms ++ (q ∷ s)) ≡ record {
      out = spelling q ms ++ (q ∷ (scan_line Mode.outside 0 s).out);
      changed = (scan_line Mode.outside 0 s).changed;
    }
unfolding scan_line spelling
scan_line-spelling q [] s h all end = ap (λ m. push q (scan_line m 0 s)) (after_close q s h end)
scan_line-spelling q (Mark.letter c ∷ ms) s h all end =
    ap (λ m. push c (scan_line m 0 (spelling q ms ++ (q ∷ s)))) (after_letter q c _ all.0.0 all.0.1)
    ∙ ap (push c) (scan_line-spelling q ms s h all.1 end)
scan_line-spelling q (Mark.doubled ∷ ms) s h all end =
    ap (λ m. push q (scan_line m 0 (q ∷ spelling q ms ++ (q ∷ s))))
      (after_pair q (spelling q ms ++ (q ∷ s)) h)
    ∙ ap (λ o. push q (push q o)) (scan_line-spelling q ms s h all.1 end)
scan_line-spelling q (Mark.escaped c ∷ ms) s h all end =
    ap (λ m. push 92 (scan_line m 0 (c ∷ spelling q ms ++ (q ∷ s))))
      (after_escape q (c ∷ (spelling q ms ++ (q ∷ s))) all.0)
    ∙ ap (λ o. push 92 (push c o)) (scan_line-spelling q ms s h all.1 end)
