-- ===== src/Definer/Examples.antt =====
-- engine/src/definer.rs at concrete lines.
use mysql_ssh_db_sync.Prelude.{
  ℕ, ◌≡◌, refl, List, [], ◌∷◌, ◌++◌, map, some, text, Text, ascii_lower, all, true, not, ◌||◌,
  nat_beq, All, arith,
}
use mysql_ssh_db_sync.Definer.{
  Cow, is_escape, strip_definers, strip_definers_stream, matches_ignore_ascii_case, begins_with,
}
use mysql_ssh_db_sync.Definer.Pieces.{
  Mark, IsMark, Name, IsName, name_text, Piece, line_text, piece_text, IsLine, spelling,
}
use mysql_ssh_db_sync.Definer.Removal.{
  strip_definers_stream-without_clauses, Reads, without_clauses,
}

abbrev line : Text
line = text "/*!50013 DEFINER=`root`@`localhost` SQL SECURITY DEFINER */"

strips_backtick_quoted_definer :
    strip_definers line ≡ Cow.owned (text "/*!50013 SQL SECURITY DEFINER */")
unfolding strip_definers ascii_lower
strips_backtick_quoted_definer = refl

leaves_definer_in_a_literal :
    strip_definers (text "INSERT INTO t VALUES ('DEFINER=`x`@`y` ');")
    ≡ Cow.borrowed (text "INSERT INTO t VALUES ('DEFINER=`x`@`y` ');")
unfolding strip_definers ascii_lower
leaves_definer_in_a_literal = refl

-- An `é` behind a clause becomes two characters.
garbles_other_text : strip_definers (text "DEFINER=a@b " ++ (233 ∷ [])) ≡ Cow.owned (195 ∷ 169 ∷ [])
unfolding strip_definers ascii_lower
garbles_other_text = refl

abbrev view : List Piece
view =
    map Piece.other (text "A ")
    ++ (Piece.definer (Name.in_quotes 96 (map Mark.letter (text "a b")))
          (some (Name.bare (text "h_1")))
        ∷ Piece.other 86
        ∷ Piece.literal 39 (Mark.escaped 39 ∷ Mark.doubled ∷ map Mark.letter (text "DEFINER="))
        ∷ Piece.other 59
        ∷ [])

abbrev plain : List Piece
plain = map Piece.other (120 ∷ 195 ∷ 169 ∷ [])

abbrev view_line : Text
view_line = text "A DEFINER=`a b`@h_1 V'\\'''DEFINER=';"

IsMark-all :
    (q : ℕ) (s : Text)
    → all (λ c. not (is_escape q c || nat_beq c q)) s ≡ true
    → All (IsMark q) (map Mark.letter s)
IsMark-all q [] h = tt
IsMark-all q (c ∷ s) h = ((ground arith, ground arith), IsMark-all q s (ground arith))

user-IsName : IsName (Name.in_quotes 96 (map Mark.letter (text "a b")))
unfolding IsName
user-IsName = (refl, IsMark-all 96 (text "a b") refl)

abbrev quoted_marks : List Mark
quoted_marks = Mark.escaped 39 ∷ Mark.doubled ∷ map Mark.letter (text "DEFINER=")

quoted_marks-IsMark : All (IsMark 39) quoted_marks
quoted_marks-IsMark = (refl, (tt, IsMark-all 39 (text "DEFINER=") refl))

view-IsLine : IsLine view
unfolding IsLine IsName matches_ignore_ascii_case begins_with line_text piece_text ascii_lower
view-IsLine =
    let end : IsLine (Piece.literal 39 quoted_marks ∷ Piece.other 59 ∷ []) =
      ((refl, (quoted_marks-IsMark, refl)), ((refl, refl), tt)) in
    ((refl, refl), ((refl, refl), ((user-IsName, (refl, (refl, (refl, tt)))), ((refl, refl), end))))

-- A line with `é`, whose bytes are two.
abbrev plain_line : Text
plain_line = text "x" ++ (233 ∷ [])

plain-Reads : Reads (plain_line, plain)
unfolding IsLine matches_ignore_ascii_case ascii_lower line_text piece_text
plain-Reads = (refl, ((refl, refl), ((refl, refl), ((refl, refl), tt))))

view-Reads : Reads (view_line, view)
unfolding line_text piece_text name_text spelling
view-Reads = (refl, view-IsLine)

strip_definers_stream-without_clauses_example :
    strip_definers_stream (view_line ∷ plain_line ∷ [])
    ≡ without_clauses ((view_line, view) ∷ (plain_line, plain) ∷ [])
strip_definers_stream-without_clauses_example =
    strip_definers_stream-without_clauses ((view_line, view) ∷ (plain_line, plain) ∷ [])
      (view-Reads, (plain-Reads, tt))
