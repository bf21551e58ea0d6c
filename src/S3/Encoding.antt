-- ===== src/S3/Encoding.antt =====
-- engine/src/s3/sign.rs: what `uri_encode` writes can be read back, and stays clear of the marks
-- that a query is made of.
use mysql_ssh_db_sync.Prelude.{
  ℕ, ◌+◌, ◌-◌, ◌*◌, ◌/◌, ◌%◌, ◌<◌, ◌≡◌, refl, ap, ◌∙◌, ◌≢◌, ◌⊎◌, Bool, true, false, [], ◌∷◌, ◌++◌,
  arith, Text, nat_beq, ltb, if◌then◌else◌, flat_map, Bytes, bytes, IsUnicode, AreBytes,
  AreBytes-bytes, Lacks, Lacks-append,
}
use mysql_ssh_db_sync.S3.Sign.{encode_byte, uri_encode, hex_upper}

-- The value of an upper-case hexadecimal digit.
abbrev pub from_hex : ℕ → ℕ
from_hex c = if ltb c 58 then c - 48 else c - 55

-- A reader that knows only that `%XY` stands for a byte.
unfoldable pub percent_decode : Text → Bytes
percent_decode [] = []
percent_decode (c ∷ []) = c ∷ []
percent_decode (c ∷ h ∷ []) = c ∷ h ∷ []
percent_decode (c ∷ h ∷ l ∷ s) = elim (nat_beq c 37) [
  | true ↦ (from_hex h * 16 + from_hex l) ∷ percent_decode s
  | false ↦ c ∷ percent_decode (h ∷ l ∷ s)
]

percent_decode-plain : (c : ℕ) (s : Text) → c ≢ 37 → percent_decode (c ∷ s) ≡ c ∷ percent_decode s
unfolding percent_decode
percent_decode-plain c [] h = refl
percent_decode-plain c (h ∷ []) k = refl
percent_decode-plain c (h ∷ l ∷ s) k = ground (arith, k)

from_hex-hex_upper : (n : ℕ) → n < 16 → from_hex (hex_upper n) ≡ n
from_hex-hex_upper n h = ground arith

percent_decode-escape :
    (b : ℕ) (s : Text)
    → b < 256
    → percent_decode (37 ∷ hex_upper (b / 16) ∷ hex_upper (b % 16) ∷ s) ≡ b ∷ percent_decode s
unfolding percent_decode
percent_decode-escape b s h =
    ap (λ n. n ∷ percent_decode s)
      (omega (
        arith,
        from_hex-hex_upper (b / 16) (omega arith),
        from_hex-hex_upper (b % 16) (omega arith),
      ))

percent_decode-encode_byte :
    (slash : Bool) (b : ℕ) (s : Text)
    → b < 256
    → percent_decode (encode_byte slash b ++ s) ≡ b ∷ percent_decode s
unfolding encode_byte
percent_decode-encode_byte slash b s h =
    ground (arith, h, percent_decode-plain b s, percent_decode-escape b s)

percent_decode-bytes :
    (slash : Bool) (bs : Bytes)
    → AreBytes bs
    → percent_decode (flat_map (encode_byte slash) bs) ≡ bs
unfolding percent_decode
percent_decode-bytes slash [] h = refl
percent_decode-bytes slash (b ∷ bs) h =
    percent_decode-encode_byte slash b (flat_map (encode_byte slash) bs) h.0
    ∙ ap (◌∷◌ b) (percent_decode-bytes slash bs h.1)

-- Whether slashes are escaped or kept, the encoding of a text is read back as the bytes of the
-- text, and so different texts are encoded differently.
pub percent_decode-uri_encode :
    (s : Text) (encode_slash : Bool)
    → IsUnicode s
    → percent_decode (uri_encode s encode_slash) ≡ bytes s
unfolding uri_encode
percent_decode-uri_encode s encode_slash h =
    percent_decode-bytes encode_slash (bytes s) (AreBytes-bytes s h)

-- `&` and `=`.
abbrev pub IsMark : ℕ → Type 0
IsMark c = (c ≡ 38) ⊎ (c ≡ 61)

Lacks-encode_byte :
    (m : ℕ) (slash : Bool) (b : ℕ) → IsMark m → b < 256 → Lacks m (encode_byte slash b)
unfolding encode_byte
Lacks-encode_byte m slash b h k = ground (arith, h, k)

Lacks-encode_bytes :
    (m : ℕ) (slash : Bool) (bs : Bytes)
    → IsMark m
    → AreBytes bs
    → Lacks m (flat_map (encode_byte slash) bs)
Lacks-encode_bytes m slash [] h k = tt
Lacks-encode_bytes m slash (b ∷ bs) h k =
    Lacks-append m (encode_byte slash b) (flat_map (encode_byte slash) bs)
      (Lacks-encode_byte m slash b h k.0) (Lacks-encode_bytes m slash bs h k.1)

pub Lacks-uri_encode :
    (m : ℕ) (s : Text) (slash : Bool) → IsMark m → IsUnicode s → Lacks m (uri_encode s slash)
unfolding uri_encode
Lacks-uri_encode m s slash h k = Lacks-encode_bytes m slash (bytes s) h (AreBytes-bytes s k)
