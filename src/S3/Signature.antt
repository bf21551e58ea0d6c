-- ===== src/S3/Signature.antt =====
-- engine/src/s3/sign.rs: a signature does not depend on the order in which the headers were added.
use mathlib.Core.List.{Perm}
use mathlib.Core.Option as Option
use mathlib.Core.List.Perm
use mysql_ssh_db_sync.Prelude.{
  ◌≡◌, refl, ap, Option, none, some, List, [], ◌∷◌, map, Text, get_to, join, sort_canonical,
  DistinctKeys, DistinctKeys-antisymm, text_leb, text_leb_total, text_leb_trans, text_leb_antisymm,
}
use mysql_ssh_db_sync.S3.Sign.{
  Header, CanonicalRequest, Hashes, name_leb, signed_headers, to_canonical_string, sign_on, sign,
}

map_eq :
    {A B : Type 0} (f g : A → B)
    → ((a : A) → f a ≡ g a)
    → (o : Option A) → Option.map f o ≡ Option.map g o
map_eq f g h none = refl
map_eq f g h (some a) = ap some (h a)

module _ (r : CanonicalRequest) (headers : List Header) (same : Perm r.headers headers)
    (distinct : DistinctKeys name_leb r.headers) where
  abbrev pub reordered : CanonicalRequest
  reordered = record r { headers = headers }

  signed_headers_of_perm : signed_headers r ≡ signed_headers reordered
  unfolding signed_headers
  signed_headers_of_perm = ap (join (59 ∷ [])) (
      sort_canonical text_leb text_leb_total text_leb_trans (hlevel) (map (λ h. h.name) r.headers)
        (map (λ h. h.name) headers) (Perm.map (λ h. h.name) same)
        (DistinctKeys-antisymm text_leb text_leb_antisymm (map (λ h. h.name) r.headers)))

  to_canonical_string_of_perm : to_canonical_string r ≡ to_canonical_string reordered
  unfolding to_canonical_string
  to_canonical_string_of_perm =
      let sorted =
        sort_canonical name_leb (λ a b. text_leb_total a.name b.name)
          (λ a b c. text_leb_trans a.name b.name c.name) (hlevel) r.headers headers same distinct in
      rw (sorted, signed_headers_of_perm) refl

  -- A request whose headers are in another order gets the same signature, if no two headers that
  -- have the same name differ, whatever the hashes compute.
  pub sign_of_perm :
      (hashes : Hashes) (access_key_id secret_access_key timestamp region service : Text)
      → sign hashes r access_key_id secret_access_key timestamp region service
        ≡ sign hashes reordered access_key_id secret_access_key timestamp region service
  unfolding sign
  sign_of_perm hashes access_key_id secret_access_key timestamp region service =
      map_eq _ _
        (λ date. unfold sign_on in rw (to_canonical_string_of_perm, signed_headers_of_perm) refl)
        (get_to 8 timestamp)
