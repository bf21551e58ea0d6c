-- ===== src/S3/Sign.antt =====
-- engine/src/s3/sign.rs: the percent encoding, the canonical request and its signature. The hash
-- and the keyed hash of sha2 and hmac are parameters.
use mathlib.Core.Option as Option
use mysql_ssh_db_sync.Prelude.{
  ℕ, ◌+◌, ◌/◌, ◌%◌, Bool, true, not, ◌&&◌, ◌||◌, Option, List, [], ◌∷◌, ◌++◌, map, Text, text, trim,
  join, ltb, leb, nat_beq, if◌then◌else◌, flat_map, sort, text_leb, Bytes, bytes, get_to,
  to_ascii_lowercase, pair_leb,
}

abbrev pub algorithm : Text
algorithm = text "AWS4-HMAC-SHA256"

abbrev pub aws4_request : Text
aws4_request = text "aws4_request"

abbrev pub hex_upper : ℕ → ℕ
hex_upper n = if ltb n 10 then 48 + n else 55 + n

abbrev pub hex_lower : ℕ → ℕ
hex_lower n = if ltb n 10 then 48 + n else 87 + n

-- `{byte:02x}` of every byte.
abbrev pub to_hex : Bytes → Text
to_hex bs = flat_map (λ b. hex_lower (b / 16) ∷ hex_lower (b % 16) ∷ []) bs

abbrev pub is_unreserved : ℕ → Bool
is_unreserved b =
    (leb 65 b && leb b 90)
    || (leb 97 b && leb b 122)
    || (leb 48 b && leb b 57)
    || nat_beq b 45
    || nat_beq b 46
    || nat_beq b 95
    || nat_beq b 126

-- The body of the loop over the bytes.
unfoldable pub encode_byte : Bool → ℕ → Text
encode_byte encode_slash b =
    if is_unreserved b
    then b ∷ []
    else if nat_beq b 47 && not encode_slash
    then 47 ∷ []
    else 37 ∷ hex_upper (b / 16) ∷ hex_upper (b % 16) ∷ []

unfoldable pub uri_encode : Text → Bool → Text
unfolding encode_byte
uri_encode input encode_slash = flat_map (encode_byte encode_slash) (bytes input)

abbrev pub encode_pair : Text × Text → Text × Text
encode_pair (name, value) = (uri_encode name true, uri_encode value true)

abbrev pub write_pair : Text × Text → Text
write_pair (name, value) = name ++ (61 ∷ value)

unfoldable pub canonical_query : List (Text × Text) → Text
unfolding uri_encode
canonical_query params = join (text "&") (map write_pair (sort pair_leb (map encode_pair params)))

pub record Header : Type 0 where
  pub name : Text
  pub value : Text

-- `Header::new`.
unfoldable pub new_header : Text → Text → Header
new_header name value = record { name = to_ascii_lowercase name; value = trim value }

pub record CanonicalRequest : Type 0 where
  pub method : Text
  pub path : Text
  pub query : Text
  pub headers : List Header
  pub payload_hash : Text

abbrev pub name_leb : Header → Header → Bool
name_leb a b = text_leb a.name b.name

unfoldable pub signed_headers : CanonicalRequest → Text
signed_headers r = join (text ";") (sort text_leb (map (λ h. h.name) r.headers))

abbrev pub write_header : Header → Text
write_header h = h.name ++ (58 ∷ h.value ++ (10 ∷ []))

unfoldable pub to_canonical_string : CanonicalRequest → Text
unfolding signed_headers
to_canonical_string r =
    let canonical_headers = flat_map write_header (sort name_leb r.headers) in
    join (text "\n")
      (r.method ∷ r.path ∷ r.query ∷ canonical_headers ∷ signed_headers r ∷ r.payload_hash ∷ [])

unfoldable pub scope : Text → Text → Text → Text
scope date region service = join (text "/") (date ∷ region ∷ service ∷ aws4_request ∷ [])

unfoldable pub authorization_header : Text → Text → Text → Text → Text
authorization_header access_key_id scope signed_headers signature =
    algorithm
    ++ text " Credential="
    ++ access_key_id
    ++ text "/"
    ++ scope
    ++ text ", SignedHeaders="
    ++ signed_headers
    ++ text ", Signature="
    ++ signature

-- `sha2::Sha256::digest`, and `hmac::Hmac<Sha256>` of a key and its data.
pub record Hashes : Type 0 where
  pub sha256 : Bytes → Bytes
  pub hmac_sha256 : Bytes → Bytes → Bytes

module _ (hashes : Hashes) where
  abbrev pub sha256_hex : Bytes → Text
  sha256_hex bs = to_hex (hashes.sha256 bs)

  abbrev pub hmac : Bytes → Text → Bytes
  hmac key input = hashes.hmac_sha256 key (bytes input)

  unfoldable pub string_to_sign : Text → Text → Text → Text
  string_to_sign timestamp scope canonical_request =
      join (text "\n") (algorithm ∷ timestamp ∷ scope ∷ sha256_hex (bytes canonical_request) ∷ [])

  unfoldable pub signing_key : Text → Text → Text → Text → Bytes
  signing_key secret date region service =
      let k_date = hmac (bytes (text "AWS4" ++ secret)) date in
      let k_region = hmac k_date region in
      let k_service = hmac k_region service in hmac k_service aws4_request

  unfoldable pub signature : Bytes → Text → Text
  signature key sts = to_hex (hmac key sts)

  -- The body of `sign`, with the date that is cut off the timestamp.
  unfoldable pub sign_on : Text → CanonicalRequest → Text → Text → Text → Text → Text → Text
  unfolding to_canonical_string signed_headers scope authorization_header string_to_sign signing_key
      signature
  sign_on date request access_key_id secret_access_key timestamp region service =
      let scope' = scope date region service in
      let sts = string_to_sign timestamp scope' (to_canonical_string request) in
      let key = signing_key secret_access_key date region service in
      authorization_header access_key_id scope' (signed_headers request) (signature key sts)

  -- None, if the date cannot be cut off the timestamp, where the code panics.
  unfoldable pub sign : CanonicalRequest → Text → Text → Text → Text → Text → Option Text
  unfolding sign_on get_to
  sign request access_key_id secret_access_key timestamp region service =
      Option.map
        (λ date. sign_on date request access_key_id secret_access_key timestamp region service)
        (get_to 8 timestamp)
