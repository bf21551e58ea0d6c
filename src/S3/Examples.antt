-- ===== src/S3/Examples.antt =====
-- A listing of a bucket and the query that asks for it (engine/src/s3).
use mathlib.Core.List.{Perm}
use mathlib.Core.List.Perm
use mysql_ssh_db_sync.Prelude.{
  ◌≡◌, refl, List, [], ◌∷◌, ◌++◌, map, Text, text, arith, ascii_lower, trim, strip_prefix, replace,
  text_leb,
}
use mysql_ssh_db_sync.S3.Sign.{CanonicalRequest, Header, Hashes, canonical_query, new_header, sign}
use mysql_ssh_db_sync.S3.Query.{
  pair_bytes, read_query, canonical_query_of_perm, read_query-canonical_query,
}
use mysql_ssh_db_sync.S3.Signature.{sign_of_perm}
use mysql_ssh_db_sync.S3.Xml.{escape, all, find_split}
use mysql_ssh_db_sync.S3.Elements.{document, all-document}

abbrev prefix_first : List (Text × Text)
prefix_first = (text "prefix", text "prod/") ∷ (text "list-type", text "2") ∷ []

abbrev type_first : List (Text × Text)
type_first = (text "list-type", text "2") ∷ (text "prefix", text "prod/") ∷ []

canonical_query_of_perm_example : canonical_query prefix_first ≡ canonical_query type_first
canonical_query_of_perm_example = canonical_query_of_perm prefix_first type_first (Perm.swap _ _ [])

read_query-canonical_query_example :
    Perm (read_query (canonical_query prefix_first)) (map pair_bytes prefix_first)
read_query-canonical_query_example = read_query-canonical_query prefix_first (λ e. cc) (omega arith)

abbrev host : Header
host = record { name = text "host"; value = text "example.com" }

abbrev amz_date : Header
amz_date = record { name = text "x-amz-date"; value = text "20150830T123600Z" }

made_host : new_header (text "Host") (text " example.com ") ≡ host
unfolding new_header ascii_lower trim
made_host = refl

abbrev request : CanonicalRequest
request = record {
  method = text "GET";
  path = text "/";
  query = [];
  headers = amz_date ∷ host ∷ [];
  payload_hash = text "e3b0";
}

abbrev toy_hashes : Hashes
toy_hashes = record { sha256 = λ bs. bs; hmac_sha256 = λ key input. key ++ input }

sign_of_perm_example :
    sign toy_hashes request
      (text "id")
      (text "secret")
      (text "20150830T123600Z")
      (text "us")
      (text "s3")
    ≡ sign toy_hashes
        (record request { headers = host ∷ amz_date ∷ [] })
        (text "id")
        (text "secret")
        (text "20150830T123600Z")
        (text "us")
        (text "s3")
sign_of_perm_example =
    sign_of_perm request (host ∷ amz_date ∷ []) (Perm.swap _ _ [])
      (((λ p q. absurd (unfold text_leb in cc)), tt), (tt, tt)) toy_hashes (text "id")
      (text "secret") (text "20150830T123600Z") (text "us") (text "s3")

-- The order of the replacements matters here.
escaped : escape (text "&lt;") ≡ text "&amp;lt;"
unfolding escape replace strip_prefix
escaped = refl

abbrev contents : List (Text × Text)
contents =
    (text "<Contents>", text "a.sql")
    ∷ (text "<Size>1</Size></Contents><Contents>", text "b&c.sql")
    ∷ []

all-document_example :
    all (document (text "Key") contents (text "</Contents>")) (text "Key")
    ≡ text "a.sql" ∷ text "b&c.sql" ∷ []
unfolding find_split strip_prefix
all-document_example =
    all-document (text "Key") contents (text "</Contents>") (omega arith) ((refl, (refl, tt))) refl
