-- ===== src/Prelude/Numbers.antt =====
-- `str::parse` on an unsigned integer, and what it accepts.
use Prim.Native.Nat.{ℕ, zero, suc, ◌+◌, ◌-◌, ◌*◌, ◌/◌, ◌%◌, ◌≤◌}
use mysql_ssh_db_sync.Prelude.Lists.{All}
use mathlib.Core.Path.{◌≡◌}
use mathlib.Core.Bool.{Bool, true, false, ◌&&◌}
use mathlib.Core.Option.{Option, none, some}
use mathlib.Core.List.{[], ◌∷◌}
use native.Mathlib.Omega.{arith}
use mysql_ssh_db_sync.Prelude.Tests.{if◌then◌else◌, leb, nat_beq}
use mysql_ssh_db_sync.Prelude.Texts.{Text}

abbrev pub is_ascii_digit : ℕ → Bool
is_ascii_digit c = leb 48 c && leb c 57

-- The loop over the digits, with a bound that the number may not pass.
unfoldable pub parse_digits : ℕ → Text → ℕ → Option ℕ
parse_digits bound [] n = some n
parse_digits bound (c ∷ s) n = elim (is_ascii_digit c && leb (n * 10 + (c - 48)) bound) [
  | true ↦ parse_digits bound s (n * 10 + (c - 48))
  | false ↦ none
]

-- A sign `+` may stand in front of the digits.
abbrev pub strip_plus : Text → Text
strip_plus [] = []
strip_plus (c ∷ s) = if nat_beq c 43 then s else c ∷ s

abbrev pub parse_nonempty : ℕ → Text → Option ℕ
parse_nonempty bound [] = none
parse_nonempty bound (c ∷ s) = parse_digits bound (c ∷ s) 0

unfoldable pub parse_unsigned : ℕ → Text → Option ℕ
unfolding parse_digits
parse_unsigned bound s = parse_nonempty bound (strip_plus s)

abbrev pub parse_u32 : Text → Option ℕ
parse_u32 = parse_unsigned 0xffffffff

parse_digits_le :
    (bound : ℕ) (s : Text) (n m : ℕ) → n ≤ bound → parse_digits bound s n ≡ some m → m ≤ bound
unfolding parse_digits
parse_digits_le bound [] n m h k = ground (arith, h, k)
parse_digits_le bound (c ∷ s) n m h k =
    ground (arith, h, k, parse_digits_le bound s (n * 10 + (c - 48)) m)

pub parse_unsigned_le : (bound : ℕ) (s : Text) (m : ℕ) → parse_unsigned bound s ≡ some m → m ≤ bound
unfolding parse_unsigned
parse_unsigned_le bound s m h = nonempty (strip_plus s) h
  where
    nonempty : (t : Text) → parse_nonempty bound t ≡ some m → m ≤ bound
    nonempty [] k = cc
    nonempty (c ∷ t) k = parse_digits_le bound (c ∷ t) 0 m (omega arith) k

-- `{n}`: the decimal digits, in front of `acc`; a number has no more digits than its value.
unfoldable pub to_digits : ℕ → ℕ → Text → Text
to_digits zero n acc = acc
to_digits (suc fuel) n acc = elim (n / 10) [
  | zero ↦ (48 + n % 10) ∷ acc
  | suc rest ↦ to_digits fuel (suc rest) ((48 + n % 10) ∷ acc)
]

unfoldable pub decimal : ℕ → Text
unfolding to_digits
decimal n = to_digits (suc n) n []

abbrev pub IsDigit : ℕ → Type 0
IsDigit c = 48 ≤ c × c ≤ 57

IsDigit-to_digits : (fuel n : ℕ) (acc : Text) → All IsDigit acc → All IsDigit (to_digits fuel n acc)
unfolding to_digits
IsDigit-to_digits zero n acc h = h
IsDigit-to_digits (suc fuel) n acc h =
    elim (n / 10)
      as (λ q. All IsDigit (elim q [
        | zero ↦ (48 + n % 10) ∷ acc
        | suc rest ↦ to_digits fuel (suc rest) ((48 + n % 10) ∷ acc)
      ])) [
        | zero ↦ (omega arith, h)
        | suc rest ↦ IsDigit-to_digits fuel (suc rest) ((48 + n % 10) ∷ acc) ((omega arith, h))
      ]

pub IsDigit-decimal : (n : ℕ) → All IsDigit (decimal n)
unfolding decimal
IsDigit-decimal n = IsDigit-to_digits (suc n) n [] tt
