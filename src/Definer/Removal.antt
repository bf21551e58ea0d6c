-- ===== src/Definer/Removal.antt =====
-- engine/src/definer.rs: which lines a dump is left with.
use mysql_ssh_db_sync.Prelude.{
  ℕ, ◌-◌, ◌≡◌, refl, sym, ap, ◌∙◌, inl, inr, true, false, List, [], ◌∷◌, ◌++◌, Option, none, some,
  append_assoc, Text, text, nat_beq, if◌then◌else◌, All, Bytes, bytes, arith, Bool-cases, length,
  length-append, filter, map, ascii_lower,
}
use mysql_ssh_db_sync.Definer.{
  clause_start, opens_quote, is_bare, matches_ignore_ascii_case, contains_ignore_ascii_case, Mode,
  begins_with, after_bare, skip_definer_part, after_user, skip_definer_clause, skip_space,
  after_clause, scan_line, push, without_clause, Cow, strip_definers, strip_definers_stream,
  write_line, written,
}
use mysql_ssh_db_sync.Definer.Pieces.{
  spelling, Name, IsName, name_text, Piece, host_text, piece_text, line_text, IsPiece, IsLine, kept,
  has_clause, after_quoted-spelling, scan_line-spelling,
}

other_quote : (q c : ℕ) → opens_quote q ≡ true → opens_quote c ≡ false → nat_beq c q ≡ false
other_quote q c h j = ground arith

bare_no_quote : (c : ℕ) → is_bare c ≡ true → opens_quote c ≡ false
bare_no_quote c h = ground arith

after_bare-append :
    (xs : Bytes) (c : ℕ) (s : Bytes)
    → All (λ b. is_bare b ≡ true) xs
    → is_bare c ≡ false
    → after_bare (xs ++ (c ∷ s)) ≡ c ∷ s
unfolding after_bare
after_bare-append [] c s all end = rw end refl
after_bare-append (x ∷ xs) c s all end = rw all.0 (after_bare-append xs c s all.1 end)

-- A name ends before a byte that is no quote and no part of a name.
skip_definer_part-name_text :
    (n : Name) (c : ℕ) (s : Bytes)
    → IsName n
    → opens_quote c ≡ false
    → is_bare c ≡ false
    → skip_definer_part (name_text n ++ (c ∷ s)) ≡ c ∷ s
unfolding skip_definer_part name_text IsName begins_with
skip_definer_part-name_text (Name.in_quotes q ms) c s h j k =
    ap (λ t. skip_definer_part (q ∷ t)) (append_assoc (spelling q ms) (q ∷ []) (c ∷ s))
    ∙ rw h.0 (after_quoted-spelling q ms (c ∷ s) h.0 h.1 (other_quote q c h.0 j))
skip_definer_part-name_text (Name.bare []) c s h j k = rw j (after_bare-append [] c s h k)
skip_definer_part-name_text (Name.bare (x ∷ xs)) c s h j k =
    rw (bare_no_quote x h.0) (after_bare-append (x ∷ xs) c s h k)

-- What stands behind the keyword of a clause, with the rest of the line.
abbrev behind : Name → Option Name → Bytes → Bytes
behind user host s = name_text user ++ (host_text host ++ (32 ∷ s))

piece_text-definer :
    (user : Name) (host : Option Name) (s : Bytes)
    → piece_text (Piece.definer user host) ++ s ≡ clause_start ++ behind user host s
unfolding piece_text
piece_text-definer user host s = ap (◌++◌ clause_start) (
    append_assoc (name_text user) (host_text host ++ (32 ∷ [])) s
    ∙ ap (◌++◌ (name_text user)) (append_assoc (host_text host) (32 ∷ []) s))

skip_definer_clause-behind :
    (user : Name) (host : Option Name) (s : Bytes)
    → IsPiece (Piece.definer user host) s
    → skip_definer_clause (behind user host s) ≡ 32 ∷ s
unfolding skip_definer_clause after_user
skip_definer_clause-behind user none s h =
    ap after_user (skip_definer_part-name_text user 32 s h refl refl)
skip_definer_clause-behind user (some host) s h =
    ap after_user (skip_definer_part-name_text user 64 (name_text host ++ (32 ∷ s)) h.0 refl refl)
    ∙ skip_definer_part-name_text host 32 s h.1 refl refl

after_clause-definer :
    (user : Name) (host : Option Name) (s : Bytes)
    → IsPiece (Piece.definer user host) s
    → after_clause (clause_start ++ behind user host s) ≡ s
unfolding after_clause skip_space
after_clause-definer user host s h = ap skip_space (skip_definer_clause-behind user host s h)

scan_line-skip :
    (xs s : Bytes) → scan_line Mode.outside (length xs) (xs ++ s) ≡ scan_line Mode.outside 0 s
unfolding scan_line
scan_line-skip [] s = refl
scan_line-skip (x ∷ xs) s = scan_line-skip xs s

clause_tail : Name → Option Name → Bytes
clause_tail user host = text "EFINER=" ++ (name_text user ++ (host_text host ++ (32 ∷ [])))

scan_line-definer :
    (user : Name) (host : Option Name) (s : Bytes)
    → IsPiece (Piece.definer user host) s
    → scan_line Mode.outside 0 (piece_text (Piece.definer user host) ++ s)
      ≡ without_clause (scan_line Mode.outside 0 s)
unfolding scan_line matches_ignore_ascii_case piece_text clause_tail ascii_lower
scan_line-definer user host s h =
    let ends : after_clause (68 ∷ (clause_tail user host ++ s)) ≡ s =
      ap after_clause (piece_text-definer user host s) ∙ after_clause-definer user host s h in
    let taken : length (clause_tail user host ++ s)
          - length (after_clause (68 ∷ (clause_tail user host ++ s)))
        ≡ length (clause_tail user host) =
      rw ends (omega (arith, length-append (clause_tail user host) s)) in
    ap (λ k. without_clause (scan_line Mode.outside k (clause_tail user host ++ s))) taken
    ∙ ap without_clause (scan_line-skip (clause_tail user host) s)

scan_line-line_text :
    (ps : List Piece)
    → IsLine ps
    → scan_line Mode.outside 0 (line_text ps)
      ≡ record { out = line_text (kept ps); changed = has_clause ps }
unfolding scan_line line_text piece_text IsLine kept has_clause
scan_line-line_text [] h = refl
scan_line-line_text (Piece.other c ∷ ps) h =
    rw (h.0.0, h.0.1, scan_line) (ap (push c) (scan_line-line_text ps h.1))
scan_line-line_text (Piece.literal q ms ∷ ps) h =
    ap (λ t. scan_line Mode.outside 0 (q ∷ t))
      (append_assoc (spelling q ms) (q ∷ []) (line_text ps))
    ∙ rw (h.0.0, scan_line)
        (ap (push q) (
          scan_line-spelling q ms (line_text ps) h.0.0 h.0.1.0 h.0.1.1
          ∙ ap (λ o. record { out = spelling q ms ++ (q ∷ o.out); changed = o.changed })
              (scan_line-line_text ps h.1)))
    ∙ ap (λ t. record { out = q ∷ t; changed = has_clause ps })
        (sym (append_assoc (spelling q ms) (q ∷ []) (line_text (kept ps))))
scan_line-line_text (Piece.definer user host ∷ ps) h =
    scan_line-definer user host (line_text ps) h.0 ∙ ap without_clause (scan_line-line_text ps h.1)

contains-append :
    (xs s n : Bytes)
    → contains_ignore_ascii_case s n ≡ true
    → contains_ignore_ascii_case (xs ++ s) n ≡ true
unfolding contains_ignore_ascii_case
contains-append [] s n h = h
contains-append (x ∷ xs) s n h = ground (arith, contains-append xs s n h)

contains-definer :
    (user : Name) (host : Option Name) (s : Bytes)
    → contains_ignore_ascii_case (piece_text (Piece.definer user host) ++ s) clause_start ≡ true
unfolding contains_ignore_ascii_case matches_ignore_ascii_case piece_text ascii_lower
contains-definer user host s = refl

contains-line_text :
    (ps : List Piece)
    → has_clause ps ≡ true
    → contains_ignore_ascii_case (line_text ps) clause_start ≡ true
unfolding has_clause line_text
contains-line_text [] h = cc
contains-line_text (Piece.other c ∷ ps) h =
    contains-append (c ∷ []) (line_text ps) clause_start (contains-line_text ps h)
contains-line_text (Piece.literal q ms ∷ ps) h =
    contains-append (piece_text (Piece.literal q ms)) (line_text ps) clause_start
      (contains-line_text ps h)
contains-line_text (Piece.definer user host ∷ ps) h = contains-definer user host (line_text ps)

-- A line with the pieces that its bytes are.
abbrev pub Reads : Text × List Piece → Type 0
Reads (s, ps) = (bytes s ≡ line_text ps) × IsLine ps

-- What becomes of the line.
abbrev pub stripped : Text × List Piece → Cow
stripped (s, ps) = if has_clause ps then Cow.owned (line_text (kept ps)) else Cow.borrowed s

strip_definers-stripped :
    (s : Text) (ps : List Piece) → Reads (s, ps) → strip_definers s ≡ stripped (s, ps)
unfolding strip_definers
strip_definers-stripped s ps h = elim (Bool-cases (has_clause ps)) [
  | inl has ↦ rw (h.0, contains-line_text ps has, scan_line-line_text ps h.1, has) refl
  | inr without ↦ rw (h.0, scan_line-line_text ps h.1, without) (ground arith)
]

-- The lines without their clauses, and how many had one.
abbrev pub without_clauses : List (Text × List Piece) → List Text × ℕ
without_clauses lines =
    (map (λ l. written (stripped l)) lines, length (filter (λ l. has_clause l.1) lines))

write_line-stripped :
    (l : Text × List Piece) (lines : List (Text × List Piece))
    → write_line (stripped l) (without_clauses lines) ≡ without_clauses (l ∷ lines)
write_line-stripped (s, ps) lines = elim (Bool-cases (has_clause ps)) [
  | inl has ↦ rw (has, filter) refl
  | inr without ↦ rw (without, filter) refl
]

-- If the bytes of each line are pieces (bytes outside of quotes at which no clause starts, closed
-- literals, and DEFINER clauses in capitals with a space behind them), then a line without a
-- clause is written as it was, a line with clauses is written as the bytes of its other pieces,
-- literals included, each byte as a character of its own, so that ASCII is kept and other text is
-- not, and the count is that of the lines with a clause.
pub strip_definers_stream-without_clauses :
    (lines : List (Text × List Piece))
    → All Reads lines
    → strip_definers_stream (map (λ l. l.0) lines) ≡ without_clauses lines
unfolding strip_definers_stream
strip_definers_stream-without_clauses [] h = refl
strip_definers_stream-without_clauses ((s, ps) ∷ lines) h =
    ap (λ c. write_line c (strip_definers_stream (map (λ l. l.0) lines)))
      (strip_definers-stripped s ps h.0)
    ∙ ap (write_line (stripped (s, ps))) (strip_definers_stream-without_clauses lines h.1)
    ∙ write_line-stripped (s, ps) lines
