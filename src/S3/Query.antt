-- ===== src/S3/Query.antt =====
-- engine/src/s3/sign.rs: the canonical query forgets the order of its parameters and nothing else.
use mathlib.Core.List.{Perm}
use mathlib.Core.List.Perm
use mathlib.Core.Path.{ap₂}
use mysql_ssh_db_sync.Prelude.{
  ◌≡◌, refl, ap, ◌∙◌, ◌≢◌, inl, inr, true, none, some, List, [], ◌∷◌, map, arith, Text, split,
  split-join, split_once, split_once-append, sort, sort-perm, sort-ne-nil, sort-All, sort_canonical,
  DistinctKeys-antisymm, pair_leb, pair_leb_total, pair_leb_trans, pair_leb_antisymm, All, Bytes,
  bytes, IsUnicode, Lacks, Lacks-append, join,
}
use mysql_ssh_db_sync.S3.Sign.{encode_pair, write_pair, canonical_query}
use mysql_ssh_db_sync.S3.Encoding.{percent_decode, percent_decode-uri_encode, Lacks-uri_encode}

-- The server's side: the pairs of a query.
abbrev pub read_pair : Text → Bytes × Bytes
read_pair piece = elim (split_once 61 piece) [
  | none ↦ (percent_decode piece, [])
  | some (name, value) ↦ (percent_decode name, percent_decode value)
]

unfoldable pub read_query : Text → List (Bytes × Bytes)
unfolding split
read_query q = map read_pair (split 38 q)

abbrev pub pair_bytes : Text × Text → Bytes × Bytes
pair_bytes (name, value) = (bytes name, bytes value)

abbrev pub IsUnicodePair : Text × Text → Type 0
IsUnicodePair (name, value) = IsUnicode name × IsUnicode value

-- Two lists of parameters in different orders are signed and sent as one query.
pub canonical_query_of_perm :
    (ps qs : List (Text × Text)) → Perm ps qs → canonical_query ps ≡ canonical_query qs
unfolding canonical_query
canonical_query_of_perm ps qs p =
    ap (λ es. join (38 ∷ []) (map write_pair es))
      (sort_canonical pair_leb pair_leb_total pair_leb_trans (hlevel) (map encode_pair ps)
        (map encode_pair qs) (Perm.map encode_pair p)
        (DistinctKeys-antisymm pair_leb pair_leb_antisymm (map encode_pair ps)))

-- A name and a value as they are encoded.
abbrev IsEncoded : Text × Text → Type 0
IsEncoded (name, value) = (Lacks 38 name × Lacks 38 value) × Lacks 61 name

IsEncoded-encode_pair : (p : Text × Text) → IsUnicodePair p → IsEncoded (encode_pair p)
IsEncoded-encode_pair (name, value) h = (
  (Lacks-uri_encode 38 name true (inl refl) h.0, Lacks-uri_encode 38 value true (inl refl) h.1),
  Lacks-uri_encode 61 name true (inr refl) h.0,
)

IsEncoded-map :
    (ps : List (Text × Text)) → All IsUnicodePair ps → All IsEncoded (map encode_pair ps)
IsEncoded-map [] h = tt
IsEncoded-map (p ∷ ps) h = (IsEncoded-encode_pair p h.0, IsEncoded-map ps h.1)

Lacks-write_pair : (e : Text × Text) → IsEncoded e → Lacks 38 (write_pair e)
Lacks-write_pair (name, value) h =
    Lacks-append 38 name (61 ∷ value) h.0.0 ((λ e. absurd (omega (arith, e))), h.0.1)

Lacks-map : (es : List (Text × Text)) → All IsEncoded es → All (Lacks 38) (map write_pair es)
Lacks-map [] h = tt
Lacks-map (e ∷ es) h = (Lacks-write_pair e h.0, Lacks-map es h.1)

abbrev decode_pair : Text × Text → Bytes × Bytes
decode_pair (name, value) = (percent_decode name, percent_decode value)

read_pair-write_pair : (e : Text × Text) → IsEncoded e → read_pair (write_pair e) ≡ decode_pair e
read_pair-write_pair (name, value) h = rw (split_once-append 61 name value h.1, read_pair)

read_pair-map :
    (es : List (Text × Text))
    → All IsEncoded es
    → map read_pair (map write_pair es) ≡ map decode_pair es
read_pair-map [] h = refl
read_pair-map (e ∷ es) h = ap₂ ◌∷◌ (read_pair-write_pair e h.0) (read_pair-map es h.1)

decode_pair-encode_pair :
    (p : Text × Text) → IsUnicodePair p → decode_pair (encode_pair p) ≡ pair_bytes p
decode_pair-encode_pair (name, value) h =
    ap₂ (λ a b. (a, b)) (percent_decode-uri_encode name true h.0)
      (percent_decode-uri_encode value true h.1)

decode_pair-map :
    (ps : List (Text × Text))
    → All IsUnicodePair ps
    → map decode_pair (map encode_pair ps) ≡ map pair_bytes ps
decode_pair-map [] h = refl
decode_pair-map (p ∷ ps) h = ap₂ ◌∷◌ (decode_pair-encode_pair p h.0) (decode_pair-map ps h.1)

map-ne-nil : {A B : Type 0} (f : A → B) (xs : List A) → xs ≢ [] → map f xs ≢ []
map-ne-nil f [] h = absurd (h refl)
map-ne-nil f (x ∷ xs) h = λ e. cc

read_query-join :
    (es : List (Text × Text))
    → es ≢ []
    → All IsEncoded es
    → read_query (join (38 ∷ []) (map write_pair es)) ≡ map decode_pair es
unfolding read_query
read_query-join es ne h =
    ap (map read_pair)
      (split-join 38 (map write_pair es) (map-ne-nil write_pair es ne) (Lacks-map es h))
    ∙ read_pair-map es h

-- A server that splits the query at `&` and `=` and undoes the percent encoding gets the given
-- parameters, each as often as it was given, if there is one.
pub read_query-canonical_query :
    (ps : List (Text × Text))
    → ps ≢ []
    → All IsUnicodePair ps
    → Perm (read_query (canonical_query ps)) (map pair_bytes ps)
unfolding canonical_query
read_query-canonical_query ps ne h =
    let es = map encode_pair ps in
    let encoded = IsEncoded-map ps h in
    let read =
      read_query-join (sort pair_leb es) (sort-ne-nil pair_leb es (map-ne-nil encode_pair ps ne))
        (sort-All pair_leb IsEncoded es encoded) in
    rw (read, ← decode_pair-map ps h) (Perm.map decode_pair (sort-perm pair_leb es))
