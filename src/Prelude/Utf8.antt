-- ===== src/Prelude/Utf8.antt =====
-- The bytes of a text, which is what the length and the slices of a `str` count.
use Prim.Native.Nat.{ℕ, zero, suc, ◌+◌, ◌-◌, ◌/◌, ◌%◌, ◌<◌}
use mathlib.Core.Bool.{Bool, ◌&&◌, ◌||◌}
use mathlib.Core.Option.{Option, none, some, map}
use mathlib.Core.List.{List, [], ◌∷◌, ◌++◌}
use native.Mathlib.Omega.{arith}
use mysql_ssh_db_sync.Prelude.Tests.{if◌then◌else◌, ltb, leb}
use mysql_ssh_db_sync.Prelude.Lists.{length, All}
use mysql_ssh_db_sync.Prelude.Texts.{Text}
use mysql_ssh_db_sync.Prelude.Search.{flat_map}

abbrev pub Bytes : Type 0
Bytes = List ℕ

abbrev pub encode_char : ℕ → Bytes
encode_char c =
    if ltb c 0x80
    then c ∷ []
    else if ltb c 0x800
    then (0xc0 + c / 64) ∷ (0x80 + c % 64) ∷ []
    else if ltb c 0x10000
    then (0xe0 + c / 4096) ∷ (0x80 + c / 64 % 64) ∷ (0x80 + c % 64) ∷ []
    else (0xf0 + c / 262144) ∷ (0x80 + c / 4096 % 64) ∷ (0x80 + c / 64 % 64) ∷ (0x80 + c % 64) ∷ []

-- `str::bytes`.
abbrev pub bytes : Text → Bytes
bytes s = flat_map encode_char s

-- `str::len`.
abbrev pub byte_len : Text → ℕ
byte_len s = length (bytes s)

-- `s.get(..n)`: none, if byte `n` is not between two characters.
unfoldable pub get_to : ℕ → Text → Option Text
get_to zero s = some []
get_to (suc n) [] = none
get_to (suc n) (c ∷ s) =
    let rest = get_to (suc n - length (encode_char c)) s in
    if leb (length (encode_char c)) (suc n) then map (◌∷◌ c) rest else none

-- `u8::to_ascii_lowercase`.
unfoldable pub ascii_lower : ℕ → ℕ
ascii_lower c = if leb 65 c && leb c 90 then c + 32 else c

-- `str::to_ascii_lowercase`.
abbrev pub to_ascii_lowercase : Text → Text
to_ascii_lowercase s = mathlib.Core.List.map ascii_lower s

-- `char::is_ascii_alphabetic`.
abbrev pub is_ascii_alphabetic : ℕ → Bool
is_ascii_alphabetic c = (leb 65 c && leb c 90) || (leb 97 c && leb c 122)

-- What a `char` can be, and what a byte is.
abbrev pub IsUnicode : Text → Type 0
IsUnicode s = All (λ c. c < 0x110000) s

abbrev pub AreBytes : Bytes → Type 0
AreBytes s = All (λ b. b < 256) s

AreBytes-encode_char : (c : ℕ) → c < 0x110000 → AreBytes (encode_char c)
AreBytes-encode_char c h = ground arith

AreBytes-append : (s t : Bytes) → AreBytes s → AreBytes t → AreBytes (s ++ t)
AreBytes-append [] t h k = k
AreBytes-append (b ∷ s) t h k = (h.0, AreBytes-append s t h.1 k)

pub AreBytes-bytes : (s : Text) → IsUnicode s → AreBytes (bytes s)
AreBytes-bytes [] h = tt
AreBytes-bytes (c ∷ s) h =
    AreBytes-append (encode_char c) (bytes s) (AreBytes-encode_char c h.0) (AreBytes-bytes s h.1)
