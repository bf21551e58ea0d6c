-- ===== src/Prelude/Texts.antt =====
-- Texts as lists of code points. Rust compares strings by their UTF-8 bytes, which is the order of
-- the code points.
use Prim.Native.Nat.{ℕ}
use Prim.Native.Char.{code}
use Prim.Native.String.{String}
use mathlib.Core.Path.{◌≡◌, refl, sym, ap, ap₂, ◌∙◌}
use mathlib.Core.Logic.{◌≢◌}
use mathlib.Core.Bool.{Bool, true, false, ◌&&◌, ◌||◌}
use mathlib.Core.Option.{Option, none, some}
use mathlib.Core.List.{List, [], ◌∷◌, ◌++◌}
use native.Mathlib.Omega.{arith}
use mysql_ssh_db_sync.Prelude.Tests.{if◌then◌else◌, ltb, leb, nat_beq, ◌==◌, nat_eq, list_eq}
use mysql_ssh_db_sync.Prelude.Lists.{is_empty, all, All, All-map}

abbrev pub Text : Type 0
Text = List ℕ

-- A literal.
abbrev pub text : String → Text
text String.[] = []
text (String.◌∷◌ c rest) = code c ∷ text rest

-- The code points with the property White_Space, `char::is_whitespace`.
unfoldable pub is_whitespace : ℕ → Bool
is_whitespace c =
    (leb 9 c && leb c 13)
    || nat_beq c 32
    || nat_beq c 0x85
    || nat_beq c 0xa0
    || nat_beq c 0x1680
    || (leb 0x2000 c && leb c 0x200a)
    || nat_beq c 0x2028
    || nat_beq c 0x2029
    || nat_beq c 0x202f
    || nat_beq c 0x205f
    || nat_beq c 0x3000

unfoldable pub trim_start : Text → Text
trim_start [] = []
trim_start (c ∷ s) = let rest = trim_start s in if is_whitespace c then rest else c ∷ s

unfoldable pub trim_end : Text → Text
trim_end [] = []
trim_end (c ∷ s) =
    let rest = trim_end s in if is_empty rest && is_whitespace c then [] else c ∷ rest

-- `str::trim`.
unfoldable pub trim : Text → Text
unfolding trim_start trim_end is_whitespace
trim s = trim_end (trim_start s)

-- `s.trim().is_empty()`.
unfoldable pub is_blank : Text → Bool
unfolding trim
is_blank s = is_empty (trim s)

-- `str::strip_prefix`.
unfoldable pub strip_prefix : Text → Text → Option Text
strip_prefix [] s = some s
strip_prefix (p ∷ ps) [] = none
strip_prefix (p ∷ ps) (c ∷ s) = let rest = strip_prefix ps s in if nat_beq p c then rest else none

pub strip_prefix_append : (p s : Text) → strip_prefix p (p ++ s) ≡ some s
unfolding strip_prefix
strip_prefix_append [] s = refl
strip_prefix_append (p ∷ ps) s = ground (arith, strip_prefix_append ps s)

pub strip_prefix→append : (p s t : Text) → strip_prefix p s ≡ some t → p ++ t ≡ s
unfolding strip_prefix
strip_prefix→append [] s t h = ground arith
strip_prefix→append (p ∷ ps) [] t h = cc
strip_prefix→append (p ∷ ps) (c ∷ s) t h = ground (arith, strip_prefix→append ps s t)

-- `[T]::join` on texts.
unfoldable pub join : Text → List Text → Text
join sep [] = []
join sep (t ∷ []) = t
join sep (t ∷ u ∷ rest) = t ++ (sep ++ join sep (u ∷ rest))

-- A text is blank exactly if all of it is white space, and so trimming changes nothing about that.
all-trim_start : (s : Text) → all is_whitespace (trim_start s) ≡ all is_whitespace s
unfolding trim_start
all-trim_start [] = refl
all-trim_start (c ∷ s) = ground (arith, all-trim_start s)

all-trim_end : (s : Text) → all is_whitespace (trim_end s) ≡ all is_whitespace s
unfolding trim_end
all-trim_end [] = refl
all-trim_end (c ∷ s) = ground (arith, all-trim_end s)

empty-trim_end : (s : Text) → is_empty (trim_end s) ≡ all is_whitespace s
unfolding trim_end
empty-trim_end [] = refl
empty-trim_end (c ∷ s) = ground (arith, empty-trim_end s)

pub is_blank-eq : (s : Text) → is_blank s ≡ all is_whitespace s
is_blank-eq s = unfold is_blank trim in empty-trim_end (trim_start s) ∙ all-trim_start s

all-trim : (s : Text) → all is_whitespace (trim s) ≡ all is_whitespace s
unfolding trim
all-trim s = all-trim_end (trim_start s) ∙ all-trim_start s

pub is_blank-trim : (s : Text) → is_blank (trim s) ≡ is_blank s
is_blank-trim s = is_blank-eq (trim s) ∙ all-trim s ∙ sym (is_blank-eq s)

-- `str::split` at a character: the pieces between its occurrences.
unfoldable pub split : ℕ → Text → List Text
split sep [] = [] ∷ []
split sep (c ∷ s) =
    let rest = split sep s in
    if nat_beq c sep then [] ∷ rest else elim rest [ [] ↦ (c ∷ []) ∷ [] | p ∷ ps ↦ (c ∷ p) ∷ ps ]

abbrev pub Lacks : ℕ → Text → Type 0
Lacks sep s = All (λ c. c ≢ sep) s

split_of_Lacks : (sep : ℕ) (s : Text) → Lacks sep s → split sep s ≡ s ∷ []
unfolding split
split_of_Lacks sep [] h = refl
split_of_Lacks sep (c ∷ s) h = ground (arith, h.0, split_of_Lacks sep s h.1)

split-append :
    (sep : ℕ) (s rest : Text) → Lacks sep s → split sep (s ++ (sep ∷ rest)) ≡ s ∷ split sep rest
unfolding split
split-append sep [] rest h = ground arith
split-append sep (c ∷ s) rest h = ground (arith, h.0, split-append sep s rest h.1)

-- Splitting a join gives the parts back, if there is one and none holds the separator.
pub split-join :
    (sep : ℕ) (ts : List Text) → ts ≢ [] → All (Lacks sep) ts → split sep (join (sep ∷ []) ts) ≡ ts
unfolding join
split-join sep [] h k = absurd (h refl)
split-join sep (t ∷ []) h k = split_of_Lacks sep t k.0
split-join sep (t ∷ u ∷ ts) h k =
    split-append sep t (join (sep ∷ []) (u ∷ ts)) k.0
    ∙ ap (◌∷◌ t) (split-join sep (u ∷ ts) (λ e. cc) k.1)

-- `str::lines`: a line ends with `\n` or `\r\n`, and no empty line follows the last end.
unfoldable pub strip_return : Text → Text
strip_return [] = []
strip_return (c ∷ []) = if nat_beq c 13 then [] else c ∷ []
strip_return (c ∷ d ∷ s) = c ∷ strip_return (d ∷ s)

unfoldable pub lines_of : List Text → List Text
unfolding strip_return
lines_of [] = []
lines_of (t ∷ []) = if is_empty t then [] else t ∷ []
lines_of (t ∷ u ∷ ts) = strip_return t ∷ lines_of (u ∷ ts)

unfoldable pub lines : Text → List Text
unfolding split lines_of
lines s = lines_of (split 10 s)

-- A text that is one whole line.
abbrev pub IsLine : Text → Type 0
IsLine s = Lacks 10 s × Lacks 13 s × (s ≢ [])

strip_return_of_Lacks : (s : Text) → Lacks 13 s → strip_return s ≡ s
unfolding strip_return
strip_return_of_Lacks [] h = refl
strip_return_of_Lacks (c ∷ []) h = ground (arith, h.0)
strip_return_of_Lacks (c ∷ d ∷ s) h = ap (◌∷◌ c) (strip_return_of_Lacks (d ∷ s) h.1)

lines_of-id : (ts : List Text) → All IsLine ts → lines_of ts ≡ ts
unfolding lines_of
lines_of-id [] h = refl
lines_of-id ([] ∷ []) h = absurd (h.0.2 refl)
lines_of-id ((c ∷ s) ∷ []) h = refl
lines_of-id (t ∷ u ∷ ts) h = ap₂ ◌∷◌ (strip_return_of_Lacks t h.0.1) (lines_of-id (u ∷ ts) h.1)

-- Lines that are joined by `\n` are read back.
pub lines-join : (ts : List Text) → ts ≢ [] → All IsLine ts → lines (join (10 ∷ []) ts) ≡ ts
unfolding lines
lines-join ts h k =
    ap lines_of (split-join 10 ts h (All-map IsLine (Lacks 10) (λ t l. l.0) ts k))
    ∙ lines_of-id ts k

-- The order of `String`, code point by code point.
unfoldable pub text_leb : Text → Text → Bool
text_leb [] t = true
text_leb (c ∷ s) [] = false
text_leb (c ∷ s) (d ∷ t) = let rest = text_leb s t in ltb c d || (nat_beq c d && rest)

-- The distinct members of a sorted list of texts.
unfoldable pub dedup : List Text → List Text
dedup [] = []
dedup (s ∷ ts) = elim (dedup ts) [
  | [] ↦ s ∷ []
  | t ∷ rest ↦ if s == t then t ∷ rest else s ∷ t ∷ rest
]

-- `str::split_once` at a character.
unfoldable pub split_once : ℕ → Text → Option (Text × Text)
split_once sep [] = none
split_once sep (c ∷ s) =
    let rest = split_once sep s in
    if nat_beq c sep
    then some ([], s)
    else elim rest [ none ↦ none | some (a, b) ↦ some (c ∷ a, b) ]

pub split_once-append :
    (sep : ℕ) (s t : Text) → Lacks sep s → split_once sep (s ++ (sep ∷ t)) ≡ some (s, t)
unfolding split_once
split_once-append sep [] t h = ground arith
split_once-append sep (c ∷ s) t h = ground (arith, h.0, split_once-append sep s t h.1)

pub Lacks-append : (c : ℕ) (s t : Text) → Lacks c s → Lacks c t → Lacks c (s ++ t)
Lacks-append c [] t h k = k
Lacks-append c (d ∷ s) t h k = (h.0, Lacks-append c s t h.1 k)

-- `str::split_whitespace`: the runs of other characters.
unfoldable pub split_whitespace_from : Text → Text × List Text
unfolding is_whitespace
split_whitespace_from [] = ([], [])
split_whitespace_from (c ∷ s) =
    let (word, words) = split_whitespace_from s in
    if is_whitespace c
    then ([], if is_empty word then words else word ∷ words)
    else (c ∷ word, words)

unfoldable pub split_whitespace : Text → List Text
unfolding split_whitespace_from
split_whitespace s =
    let (word, words) = split_whitespace_from s in if is_empty word then words else word ∷ words

-- `str::starts_with`.
abbrev pub starts_with : Text → Text → Bool
starts_with p s = elim (strip_prefix p s) [ none ↦ false | some _ ↦ true ]

-- A trimmed text has nothing left to trim.
trim_end_twice : (s : Text) → trim_end (trim_end s) ≡ trim_end s
unfolding trim_end
trim_end_twice [] = refl
trim_end_twice (c ∷ s) = ground (arith, trim_end_twice s)

trim_start_end : (s : Text) → trim_start (trim_end (trim_start s)) ≡ trim_end (trim_start s)
unfolding trim_start trim_end
trim_start_end [] = refl
trim_start_end (c ∷ s) = ground (arith, trim_start_end s)

pub trim-trim : (s : Text) → trim (trim s) ≡ trim s
unfolding trim
trim-trim s = ap trim_end (trim_start_end s) ∙ trim_end_twice (trim_start s)
