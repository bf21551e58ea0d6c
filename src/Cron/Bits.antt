-- ===== src/Cron/Bits.antt =====
-- engine/src/cron.rs: `has`, `bit` and the operations on sets of bits, digit by digit.
use Prim.Native.Nat.{max, min, bit_and, bit_or, bit_and-bitwise, bit_or-bitwise, digits}
use mysql_ssh_db_sync.Prelude.{
  ℕ, zero, suc, ◌+◌, ◌*◌, ◌/◌, ◌%◌, ◌^◌, ◌≤◌, ◌≡◌, refl, ap, sym, ◌∙◌, false, ◌&&◌, ◌||◌, nat_beq,
  arith,
}
use mysql_ssh_db_sync.Cron.{bit, has}

-- The digits of a number run out no later than the count of rounds.
digits_rounds :
    (z : ℕ → ℕ) (f : ℕ → ℕ → ℕ) (n m a b : ℕ) → a ≤ n → a ≤ m → digits z f n a b ≡ digits z f m a b
digits_rounds z f zero zero a b h k = refl
digits_rounds z f zero (suc m) zero b h k = refl
digits_rounds z f zero (suc m) (suc a) b h k = absurd (omega arith)
digits_rounds z f (suc n) zero zero b h k = refl
digits_rounds z f (suc n) zero (suc a) b h k = absurd (omega arith)
digits_rounds z f (suc n) (suc m) zero b h k = refl
digits_rounds z f (suc n) (suc m) (suc a) b h k =
    ap (λ rest. rest * 2 + f (suc a % 2) (b % 2))
      (digits_rounds z f n m (suc a / 2) (b / 2) (omega arith) (omega arith))

bit_and_digit : (a b : ℕ) → bit_and a b ≡ bit_and (a / 2) (b / 2) * 2 + min (a % 2) (b % 2)
bit_and_digit zero b = omega (arith, bit_and-bitwise 0 b, bit_and-bitwise 0 (b / 2))
bit_and_digit (suc a) b =
    bit_and-bitwise (suc a) b
    ∙ ap (λ rest. rest * 2 + min (suc a % 2) (b % 2))
        (digits_rounds (λ b. zero) min a (suc a / 2) (suc a / 2) (b / 2) (omega arith) (omega arith)
          ∙ sym (bit_and-bitwise (suc a / 2) (b / 2)))

bit_or_digit : (a b : ℕ) → bit_or a b ≡ bit_or (a / 2) (b / 2) * 2 + max (a % 2) (b % 2)
bit_or_digit zero b = omega (arith, bit_or-bitwise 0 b, bit_or-bitwise 0 (b / 2))
bit_or_digit (suc a) b =
    bit_or-bitwise (suc a) b
    ∙ ap (λ rest. rest * 2 + max (suc a % 2) (b % 2))
        (digits_rounds (λ b. b) max a (suc a / 2) (suc a / 2) (b / 2) (omega arith) (omega arith)
          ∙ sym (bit_or-bitwise (suc a / 2) (b / 2)))

bit_and-zero : (n a : ℕ) → a ≤ n → bit_and a 0 ≡ 0
bit_and-zero n zero h = bit_and-bitwise 0 0
bit_and-zero zero (suc a) h = absurd (omega arith)
bit_and-zero (suc n) (suc a) h =
    omega (arith, bit_and_digit (suc a) 0, bit_and-zero n (suc a / 2) (omega arith))

half-bit : (v : ℕ) → 2 ^ suc v / 2 ≡ 2 ^ v
half-bit v = omega arith

even-bit : (v : ℕ) → 2 ^ suc v % 2 ≡ 0
even-bit v = omega arith

-- The lowest bit, and the bits above it.
has-low : (set : ℕ) → has set 0 ≡ nat_beq (set % 2) 1
unfolding has
has-low set = ground (arith, bit_and_digit set 1, bit_and-zero (set / 2) (set / 2) (omega arith))

has-high : (set v : ℕ) → has set (suc v) ≡ has (set / 2) v
unfolding has
has-high set v =
    let digit : bit_and set (2 ^ suc v) ≡ bit_and (set / 2) (2 ^ v) * 2 =
      bit_and_digit set (2 ^ suc v) ∙ rw (half-bit v, even-bit v) (omega arith) in
    ground (arith, digit)

pub has-zero : (v : ℕ) → has 0 v ≡ false
has-zero zero = has-low 0
has-zero (suc v) = has-high 0 v ∙ has-zero v

pub has-bit_or : (v a b : ℕ) → has (bit_or a b) v ≡ (has a v || has b v)
has-bit_or zero a b = ground (arith, has-low a, has-low b, has-low (bit_or a b), bit_or_digit a b)
has-bit_or (suc v) a b =
    has-high (bit_or a b) v
    ∙ ap (λ set. has set v) (omega (arith, bit_or_digit a b))
    ∙ has-bit_or v (a / 2) (b / 2)
    ∙ sym (ground (arith, has-high a v, has-high b v))

pub has-bit_and : (v a b : ℕ) → has (bit_and a b) v ≡ (has a v && has b v)
has-bit_and zero a b =
    ground (arith, has-low a, has-low b, has-low (bit_and a b), bit_and_digit a b)
has-bit_and (suc v) a b =
    has-high (bit_and a b) v
    ∙ ap (λ set. has set v) (omega (arith, bit_and_digit a b))
    ∙ has-bit_and v (a / 2) (b / 2)
    ∙ sym (ground (arith, has-high a v, has-high b v))

pub has-bit : (v u : ℕ) → has (bit v) u ≡ nat_beq u v
has-bit zero zero = has-low 1
has-bit zero (suc u) = has-high 1 u ∙ has-zero u ∙ ground arith
has-bit (suc v) zero = has-low (2 ^ suc v) ∙ ground (arith, even-bit v)
has-bit (suc v) (suc u) =
    has-high (2 ^ suc v) u ∙ ap (λ set. has set u) (half-bit v) ∙ has-bit v u ∙ ground arith
