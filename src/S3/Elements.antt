-- ===== src/S3/Elements.antt =====
-- engine/src/s3/xml.rs: the values that a document holds in elements of one name are all read, in
-- their order.
use mathlib.Core.Option as Option
use mysql_ssh_db_sync.Prelude.{
  ℕ, zero, suc, ◌≤◌, ◌≡◌, refl, ap, ◌∙◌, Option, none, some, List, [], ◌∷◌, ◌++◌, map, arith, Text,
  strip_prefix, strip_prefix_append, Lacks, Lacks-append, append_assoc, All, length, length-append,
}
use mysql_ssh_db_sync.S3.Xml.{
  escape, found, find_split, open_tag, close_tag, unescaped, close_element, next_element, first,
  all_from, all,
}
use mysql_ssh_db_sync.S3.Escapes.{unescape-escape, Lacks-escape}

-- A tag that is not in a text does not begin in it either, where the text goes on with `<`.
strip_prefix-none_append :
    (q s y : Text) → Lacks 60 q → strip_prefix q s ≡ none → strip_prefix q (s ++ (60 ∷ y)) ≡ none
unfolding strip_prefix
strip_prefix-none_append [] s y h k = cc
strip_prefix-none_append (d ∷ q) [] y h k = ground (arith, h.0)
strip_prefix-none_append (d ∷ q) (c ∷ s) y h k = ground (arith, strip_prefix-none_append q s y h.1)

strip_prefix-none_tag :
    (q s y : Text) (c : ℕ)
    → Lacks 60 q
    → strip_prefix (60 ∷ q) (c ∷ s) ≡ none
    → strip_prefix (60 ∷ q) (c ∷ (s ++ (60 ∷ y))) ≡ none
unfolding strip_prefix
strip_prefix-none_tag q s y c h k = ground (arith, strip_prefix-none_append q s y h)

found-none :
    (c : ℕ) (o : Option Text) (later : Option (Text × Text))
    → found c o later ≡ none
    → (o ≡ none) × (later ≡ none)
found-none c (some rest) later h = cc
found-none c none none h = (refl, refl)
found-none c none (some (before, after)) h = cc

-- The first occurrence of a tag behind a text that has none.
find_split-append :
    (q pre x : Text)
    → Lacks 60 q
    → find_split (60 ∷ q) pre ≡ none
    → find_split (60 ∷ q) (pre ++ ((60 ∷ q) ++ x)) ≡ some (pre, x)
unfolding find_split
find_split-append q [] x h k =
    ap (λ o. found 60 o (find_split (60 ∷ q) (q ++ x))) (strip_prefix_append (60 ∷ q) x)
find_split-append q (c ∷ s) x h k =
    let (here, later) = found-none c _ _ k in
    let not_here = strip_prefix-none_tag q s (q ++ x) c h here in
    ap (λ o. found c o (find_split (60 ∷ q) (s ++ ((60 ∷ q) ++ x)))) not_here
    ∙ ap (found c none) (find_split-append q s x h later)

find_split_of_Lacks : (q s : Text) → Lacks 60 s → find_split (60 ∷ q) s ≡ none
unfolding find_split strip_prefix
find_split_of_Lacks q [] h = refl
find_split_of_Lacks q (c ∷ s) h = ground (arith, h.0, find_split_of_Lacks q s h.1)

-- An element as the server writes it.
abbrev pub element : Text → Text → Text
element tag value = open_tag tag ++ (escape value ++ close_tag tag)

Lacks-tag : (tag : Text) → Lacks 60 tag → Lacks 60 (tag ++ (62 ∷ []))
Lacks-tag tag h = Lacks-append 60 tag (62 ∷ []) h (ground arith)

next_element-element :
    (tag pre value rest : Text)
    → Lacks 60 tag
    → find_split (open_tag tag) pre ≡ none
    → next_element (pre ++ (element tag value ++ rest)) tag ≡ some (value, rest)
unfolding next_element
next_element-element tag pre value rest h k =
    let close = 47 ∷ tag ++ (62 ∷ []) in
    let from = escape value ++ ((60 ∷ close) ++ rest) in
    let shape : element tag value ++ rest ≡ open_tag tag ++ from =
      append_assoc (open_tag tag) (escape value ++ close_tag tag) rest
      ∙ ap (◌++◌ (open_tag tag)) (append_assoc (escape value) (close_tag tag) rest) in
    let opened = find_split-append (tag ++ (62 ∷ [])) pre from (Lacks-tag tag h) k in
    let closed =
      find_split-append close (escape value) rest ((ground arith, Lacks-tag tag h))
        (find_split_of_Lacks close (escape value) (Lacks-escape value)) in
    ap (λ t. next_element (pre ++ t) tag) shape
    ∙ ap (close_element tag) opened
    ∙ ap (Option.map unescaped) closed
    ∙ ap (λ v. some (v, rest)) (unescape-escape value)

-- Whatever else stands in front, the first element of a name is found, with the value that was
-- written.
pub first-element :
    (tag pre value rest : Text)
    → Lacks 60 tag
    → find_split (open_tag tag) pre ≡ none
    → first (pre ++ (element tag value ++ rest)) tag ≡ some value
unfolding first
first-element tag pre value rest h k = rw (next_element-element tag pre value rest h k) refl

-- A document: the elements of a name, each behind other text, and the text behind the last.
abbrev pub document : Text → List (Text × Text) → Text → Text
document tag [] post = post
document tag ((pre, value) ∷ parts) post = pre ++ (element tag value ++ document tag parts post)

abbrev pub value_of : Text × Text → Text
value_of (pre, value) = value

abbrev pub HasNoTag : Text → Text × Text → Type 0
HasNoTag tag (pre, value) = find_split (open_tag tag) pre ≡ none

length-document :
    (tag : Text) (parts : List (Text × Text)) (post : Text)
    → length parts ≤ length (document tag parts post)
length-document tag [] post = omega arith
length-document tag ((pre, value) ∷ parts) post = omega (
  arith,
  length-append pre (element tag value ++ document tag parts post),
  length-append (element tag value) (document tag parts post),
  length-document tag parts post,
)

all_from-document :
    (fuel : ℕ) (tag : Text) (parts : List (Text × Text)) (post : Text)
    → length parts ≤ fuel
    → Lacks 60 tag
    → All (HasNoTag tag) parts
    → find_split (open_tag tag) post ≡ none
    → all_from fuel (document tag parts post) tag ≡ map value_of parts
unfolding all_from
all_from-document zero tag [] post fits h k e = refl
all_from-document zero tag (p ∷ parts) post fits h k e = absurd (omega arith)
all_from-document (suc fuel) tag [] post fits h k e =
    let ended : next_element post tag ≡ none = unfold next_element in ap (close_element tag) e in
    rw (ended, all_from) refl
all_from-document (suc fuel) tag ((pre, value) ∷ parts) post fits h k e =
    rw (next_element-element tag pre value (document tag parts post) h k.0, all_from)
      (ap (◌∷◌ value) (all_from-document fuel tag parts post (omega arith) h k.1 e))

-- The loop ends with every value of the document, in order, whatever other text stands between the
-- elements, as long as that text does not open the same tag.
pub all-document :
    (tag : Text) (parts : List (Text × Text)) (post : Text)
    → Lacks 60 tag
    → All (HasNoTag tag) parts
    → find_split (open_tag tag) post ≡ none
    → all (document tag parts post) tag ≡ map value_of parts
unfolding all
all-document tag parts post =
    all_from-document (length (document tag parts post)) tag parts post
      (length-document tag parts post)
