-- ===== src/Definer.antt =====
-- engine/src/definer.rs: the removal of DEFINER clauses from the lines of a dump. A line is scanned
-- as bytes, and what is kept becomes a text with one character for each byte, as the code pushes
-- `byte as char`. A position in the bytes is what stands from there on.
mod Pieces
mod Removal
mod Examples
use mysql_ssh_db_sync.Prelude.{
  ℕ, zero, suc, ◌-◌, Bool, true, false, not, ◌&&◌, ◌||◌, List, [], ◌∷◌, Text, text, nat_beq,
  if◌then◌else◌, length, drop, Bytes, bytes, ascii_lower, is_ascii_alphabetic, is_ascii_digit,
}

abbrev pub clause_start : Bytes
clause_start = text "DEFINER="

abbrev pub opens_quote : ℕ → Bool
opens_quote c = nat_beq c 39 || (nat_beq c 34 || nat_beq c 96)

-- Whether the bytes start with `needle`, whatever the case of its letters.
unfoldable pub matches_ignore_ascii_case : Bytes → Bytes → Bool
matches_ignore_ascii_case haystack [] = true
matches_ignore_ascii_case [] (n ∷ needle) = false
matches_ignore_ascii_case (h ∷ haystack) (n ∷ needle) =
    nat_beq (ascii_lower h) (ascii_lower n) && matches_ignore_ascii_case haystack needle

-- Whether some window of the bytes is `needle`.
unfoldable pub contains_ignore_ascii_case : Bytes → Bytes → Bool
unfolding matches_ignore_ascii_case
contains_ignore_ascii_case [] needle = matches_ignore_ascii_case [] needle
contains_ignore_ascii_case (h ∷ haystack) needle =
    matches_ignore_ascii_case (h ∷ haystack) needle || contains_ignore_ascii_case haystack needle

-- Where a loop over bytes is: outside of quotes, inside of one, or inside of one at the second byte
-- of a pair that is taken together.
pub data Mode : Type 0 where
  outside : Mode
  inside : ℕ → Mode
  copied : ℕ → Mode

-- Whether `c` escapes the byte behind it, in quotes `q`.
abbrev pub is_escape : ℕ → ℕ → Bool
is_escape q c = nat_beq c 92 && not (nat_beq q 96)

unfoldable pub begins_with : ℕ → Bytes → Bool
begins_with q [] = false
begins_with q (c ∷ s) = nat_beq c q

-- The mode behind a byte `c` that stands inside of quotes `q`, before the rest `s`.
unfoldable pub after_inside : ℕ → ℕ → Bytes → Mode
unfolding begins_with
after_inside q c s =
    if is_escape q c
    then Mode.copied q
    else if nat_beq c q
    then (if begins_with q s then Mode.copied q else Mode.outside)
    else Mode.inside q

-- What stands behind a quoted name, from inside of it.
unfoldable pub after_quoted : Mode → Bytes → Bytes
unfolding after_inside
after_quoted Mode.outside s = s
after_quoted (Mode.inside q) [] = []
after_quoted (Mode.inside q) (c ∷ s) = after_quoted (after_inside q c s) s
after_quoted (Mode.copied q) [] = []
after_quoted (Mode.copied q) (c ∷ s) = after_quoted (Mode.inside q) s

abbrev pub is_bare : ℕ → Bool
is_bare c = is_ascii_alphabetic c || (is_ascii_digit c || (nat_beq c 95 || nat_beq c 36))

unfoldable pub after_bare : Bytes → Bytes
after_bare [] = []
after_bare (c ∷ s) = let rest = after_bare s in if is_bare c then rest else c ∷ s

-- What stands behind a quoted or bare name.
unfoldable pub skip_definer_part : Bytes → Bytes
unfolding after_quoted after_bare
skip_definer_part [] = []
skip_definer_part (c ∷ s) =
    if opens_quote c then after_quoted (Mode.inside c) s else after_bare (c ∷ s)

unfoldable pub after_user : Bytes → Bytes
unfolding skip_definer_part
after_user [] = []
after_user (c ∷ s) = if nat_beq c 64 then skip_definer_part s else c ∷ s

-- What stands behind `<user>@<host>`.
unfoldable pub skip_definer_clause : Bytes → Bytes
unfolding skip_definer_part after_user
skip_definer_clause s = after_user (skip_definer_part s)

unfoldable pub skip_space : Bytes → Bytes
skip_space [] = []
skip_space (c ∷ s) = if nat_beq c 32 then s else c ∷ s

-- What stands behind a clause that starts here.
unfoldable pub after_clause : Bytes → Bytes
unfolding skip_definer_clause skip_space
after_clause s = skip_space (skip_definer_clause (drop (length clause_start) s))

-- The loop's `out` and `changed`.
pub record Output : Type 0 where
  pub out : Text
  pub changed : Bool

abbrev pub push : ℕ → Output → Output
push c o = record { out = c ∷ o.out; changed = o.changed }

abbrev pub without_clause : Output → Output
without_clause o = record { out = o.out; changed = true }

-- The loop; the next `skip` bytes belong to a clause.
unfoldable pub scan_line : Mode → ℕ → Bytes → Output
unfolding after_inside after_clause matches_ignore_ascii_case
scan_line m skip [] = record { out = []; changed = false }
scan_line m (suc skip) (c ∷ s) = scan_line m skip s
scan_line (Mode.inside q) zero (c ∷ s) = push c (scan_line (after_inside q c s) zero s)
scan_line (Mode.copied q) zero (c ∷ s) = push c (scan_line (Mode.inside q) zero s)
scan_line Mode.outside zero (c ∷ s) = elim (opens_quote c) [
  | true ↦ push c (scan_line (Mode.inside c) zero s)
  | false ↦ elim (matches_ignore_ascii_case (c ∷ s) clause_start) [
    | true ↦ without_clause (scan_line Mode.outside (length s - length (after_clause (c ∷ s))) s)
    | false ↦ push c (scan_line Mode.outside zero s)
  ]
]

-- `Cow<str>`.
pub data Cow : Type 0 where
  borrowed : Text → Cow
  owned : Text → Cow

abbrev pub cow : Text → Output → Cow
cow line o = if o.changed then Cow.owned o.out else Cow.borrowed line

unfoldable pub strip_definers : Text → Cow
unfolding contains_ignore_ascii_case scan_line
strip_definers line =
    if not (contains_ignore_ascii_case (bytes line) clause_start)
    then Cow.borrowed line
    else cow line (scan_line Mode.outside 0 (bytes line))

-- The text of either.
abbrev pub written : Cow → Text
written (Cow.borrowed s) = s
written (Cow.owned s) = s

-- One round of the loop over the lines, with what the rounds behind it write and count.
abbrev pub write_line : Cow → List Text × ℕ → List Text × ℕ
write_line (Cow.borrowed s) (rest, modified) = (s ∷ rest, modified)
write_line (Cow.owned s) (rest, modified) = (s ∷ rest, suc modified)

-- The lines that are written, and how many of them were modified.
unfoldable pub strip_definers_stream : List Text → List Text × ℕ
unfolding strip_definers
strip_definers_stream [] = ([], 0)
strip_definers_stream (line ∷ lines) =
    write_line (strip_definers line) (strip_definers_stream lines)
