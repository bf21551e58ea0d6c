-- ===== src/S3/Xml.antt =====
-- engine/src/s3/xml.rs: text between tags, and the five entities. A text is cut where the code cuts
-- it; a search from the left is a recursion on the text.
use mathlib.Core.Option as Option
use mysql_ssh_db_sync.Prelude.{
  ℕ, zero, suc, Option, none, some, List, [], ◌∷◌, ◌++◌, Text, text, length, strip_prefix, replace,
}

-- At a character: the occurrence that starts here, or else the first one behind it.
abbrev pub found : ℕ → Option Text → Option (Text × Text) → Option (Text × Text)
found c (some rest) later = some ([], rest)
found c none none = none
found c none (some (before, after)) = some (c ∷ before, after)

-- What stands in front of the first occurrence of a text, and what stands behind it: the slices
-- that the code takes at the index of `find`.
unfoldable pub find_split : Text → Text → Option (Text × Text)
unfolding strip_prefix
find_split p [] = Option.map (λ rest. ([], rest)) (strip_prefix p [])
find_split p (c ∷ s) = found c (strip_prefix p (c ∷ s)) (find_split p s)

unfoldable pub unescape : Text → Text
unfolding replace
unescape s =
    let s = replace (text "&lt;") (text "<") 0 s in
    let s = replace (text "&gt;") (text ">") 0 s in
    let s = replace (text "&quot;") (text "\"") 0 s in
    let s = replace (text "&apos;") (text "'") 0 s in replace (text "&amp;") (text "&") 0 s

unfoldable pub escape : Text → Text
unfolding replace
escape s =
    let s = replace (text "&") (text "&amp;") 0 s in
    let s = replace (text "<") (text "&lt;") 0 s in
    let s = replace (text ">") (text "&gt;") 0 s in
    let s = replace (text "\"") (text "&quot;") 0 s in replace (text "'") (text "&apos;") 0 s

abbrev pub open_tag : Text → Text
open_tag tag = 60 ∷ tag ++ (62 ∷ [])

abbrev pub close_tag : Text → Text
close_tag tag = 60 ∷ 47 ∷ tag ++ (62 ∷ [])

abbrev pub unescaped : Text × Text → Text × Text
unescaped (body, rest) = (unescape body, rest)

-- The element whose opening tag was found, and what stands behind it.
abbrev pub close_element : Text → Option (Text × Text) → Option (Text × Text)
close_element tag none = none
close_element tag (some (_, from)) = Option.map unescaped (find_split (close_tag tag) from)

unfoldable pub next_element : Text → Text → Option (Text × Text)
unfolding find_split unescape
next_element xml tag = close_element tag (find_split (open_tag tag) xml)

unfoldable pub first : Text → Text → Option Text
unfolding next_element
first xml tag = Option.map (λ (value, _). value) (next_element xml tag)

-- The loop, which takes at least a tag off the text in each round.
unfoldable pub all_from : ℕ → Text → Text → List Text
unfolding next_element
all_from zero rest tag = []
all_from (suc fuel) rest tag = elim (next_element rest tag) [
  | none ↦ []
  | some (value, rest) ↦ value ∷ all_from fuel rest tag
]

unfoldable pub all : Text → Text → List Text
unfolding all_from
all xml tag = all_from (length xml) xml tag

pub record S3ErrorBody : Type 0 where
  pub code : Text
  pub message : Text

-- `unwrap_or_default`.
abbrev or_default : Option Text → Text
or_default none = []
or_default (some s) = s

unfoldable pub parse_error : Text → Option S3ErrorBody
unfolding first
parse_error body =
    Option.map (λ code. record { code = code; message = or_default (first body (text "Message")) })
      (first body (text "Code"))
