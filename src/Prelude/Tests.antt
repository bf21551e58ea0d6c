-- ===== src/Prelude/Tests.antt =====
-- Boolean tests on numbers, equality as an interface, the conditional, and splits on computed
-- values.
use Prim.Native.Nat.{ℕ, ◌≤◌, ◌<◌, compare, Ordering}
use mathlib.Core.Path.{◌≡◌, refl}
use mathlib.Core.Logic.{◌↔◌, ◌≢◌, ◌⊎◌, inl, inr}
use mathlib.Core.Bool.{Bool, true, false, ◌&&◌}
use mathlib.Core.Option.{Option, none, some}
use mathlib.Core.List.{List, [], ◌∷◌}
use native.Mathlib.Omega.{arith}

abbrev pub ltb : ℕ → ℕ → Bool
ltb a b = elim (compare a b) [ Ordering.lt ↦ true | _ ↦ false ]

abbrev pub leb : ℕ → ℕ → Bool
leb a b = elim (compare a b) [ Ordering.gt ↦ false | _ ↦ true ]

abbrev pub nat_beq : ℕ → ℕ → Bool
nat_beq a b = elim (compare a b) [ Ordering.eq ↦ true | _ ↦ false ]

infix 1 if◌then◌else◌
abbrev pub if◌then◌else◌ {ℓ} : {A : Type ℓ} → Bool → A → A → A
if true then x else y = x
if false then x else y = y

pub ltb→lt : (a b : ℕ) → ltb a b ≡ true → a < b
ltb→lt a b h = ground arith

pub lt→ltb : (a b : ℕ) → a < b → ltb a b ≡ true
lt→ltb a b h = ground arith

pub leb→le : (a b : ℕ) → leb a b ≡ true → a ≤ b
leb→le a b h = ground arith

pub le→leb : (a b : ℕ) → a ≤ b → leb a b ≡ true
le→leb a b h = ground arith

pub nat_beq_iff : (a b : ℕ) → (nat_beq a b ≡ true) ↔ (a ≡ b)
nat_beq_iff a b = ground arith

-- `PartialEq` as the code derives it: a test that accepts every value with itself, and no two
-- values that differ.
pub record PartialEq {ℓ} (A : Type ℓ) : Type ℓ where
  pub test : A → A → Bool
  pub sound : (a b : A) → test a b ≡ true → a ≡ b
  pub accepts_self : (a : A) → test a a ≡ true

module _ {ℓ} {A : Type ℓ} ⦃eq : PartialEq A⦄ where
  infix 50 ◌==◌
  abbrev pub ◌==◌ : A → A → Bool
  ◌==◌ = eq.test

  pub ==→eq : (a b : A) → (a == b) ≡ true → a ≡ b
  ==→eq = eq.sound

  pub ==_self : (a : A) → (a == a) ≡ true
  ==_self = eq.accepts_self

  pub ==_iff : (a b : A) → ((a == b) ≡ true) ↔ (a ≡ b)
  ==_iff a b = (==→eq a b, λ p. rw p (==_self b))

  pub ==_false : (a b : A) → (a == b) ≡ false → a ≢ b
  ==_false a b h p = ground (arith, ==_iff a b)

  pub ==_of_ne : (a b : A) → a ≢ b → (a == b) ≡ false
  ==_of_ne a b ne = ground (arith, ==_iff a b)

instance abbrev pub nat_eq : PartialEq ℕ
nat_eq = record {
  test = nat_beq;
  sound = λ a b. (nat_beq_iff a b).0;
  accepts_self = λ a. (nat_beq_iff a a).1 refl;
}

module _ {ℓ} {A : Type ℓ} ⦃eq : PartialEq A⦄ where
  unfoldable pub list_beq : List A → List A → Bool
  list_beq [] [] = true
  list_beq (a ∷ as') (b ∷ bs) = a == b && list_beq as' bs
  list_beq _ _ = false

  pub list_beq→eq : (as' bs : List A) → list_beq as' bs ≡ true → as' ≡ bs
  unfolding list_beq
  list_beq→eq [] [] h = refl
  list_beq→eq [] (b ∷ bs) h = cc
  list_beq→eq (a ∷ as') [] h = cc
  list_beq→eq (a ∷ as') (b ∷ bs) h = ground (arith, ==→eq a b, list_beq→eq as' bs)

  pub list_beq_self : (as' : List A) → list_beq as' as' ≡ true
  unfolding list_beq
  list_beq_self [] = refl
  list_beq_self (a ∷ as') = ground (arith, ==_self a, list_beq_self as')

instance abbrev pub list_eq {ℓ} : {A : Type ℓ} ⦃eq : PartialEq A⦄ → PartialEq (List A)
list_eq = record { test = list_beq; sound = list_beq→eq; accepts_self = list_beq_self }

-- To split on a computed value and keep the equation.
pub Bool-cases : (b : Bool) → (b ≡ true) ⊎ (b ≡ false)
Bool-cases true = inl refl
Bool-cases false = inr refl

pub Option-cases {ℓ} : {A : Type ℓ} (o : Option A) → (o ≡ none) ⊎ ((a : A) × (o ≡ some a))
Option-cases none = inl refl
Option-cases (some a) = inr (a, refl)

abbrev pub is_some {ℓ} : {A : Type ℓ} → Option A → Bool
is_some none = false
is_some (some _) = true

abbrev pub is_none {ℓ} : {A : Type ℓ} → Option A → Bool
is_none none = true
is_none (some _) = false
