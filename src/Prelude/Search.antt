-- ===== src/Prelude/Search.antt =====
-- Searches through a list from either end, and ranges of numbers.
use Prim.Native.Nat.{ℕ, zero, suc}
use mathlib.Core.Path.{◌≡◌, refl, sym, ap, ap₂, ◌∙◌}
use mathlib.Core.Bool.{Bool}
use mathlib.Core.Logic.{inl, inr}
use mathlib.Core.Option.{Option, none, some}
use mathlib.Core.List.{List, [], ◌∷◌, ◌++◌, map}
use mysql_ssh_db_sync.Prelude.Tests.{if◌then◌else◌, Bool-cases}
use mysql_ssh_db_sync.Prelude.Lists.{filter}

pub data Direction : Type 0 where
  forward backward : Direction

-- The numbers of `s..s + n`.
abbrev pub range : ℕ → ℕ → List ℕ
range s zero = []
range s (suc n) = s ∷ range (suc s) n

module _ {ℓ} {A : Type ℓ} where
  abbrev pub or_else : Option A → Option A → Option A
  or_else none b = b
  or_else (some a) b = some a

  pub or_else_assoc : (a b c : Option A) → or_else (or_else a b) c ≡ or_else a (or_else b c)
  or_else_assoc none b c = refl
  or_else_assoc (some a) b c = refl

  pub or_else-none : (a : Option A) → or_else a none ≡ a
  or_else-none none = refl
  or_else-none (some a) = refl

  -- The first of two in a direction.
  abbrev pub either : Direction → Option A → Option A → Option A
  either forward a b = or_else a b
  either backward a b = or_else b a

  pub either_assoc :
      (dir : Direction) (a b c : Option A)
      → either dir (either dir a b) c ≡ either dir a (either dir b c)
  either_assoc forward a b c = or_else_assoc a b c
  either_assoc backward a b c = sym (or_else_assoc c b a)

  pub either-none : (dir : Direction) (a : Option A) → either dir a none ≡ a
  either-none forward a = or_else-none a
  either-none backward a = refl

  pub none-either : (dir : Direction) (a : Option A) → either dir none a ≡ a
  none-either forward a = refl
  none-either backward a = or_else-none a

  abbrev pub reverse : List A → List A
  reverse [] = []
  reverse (x ∷ xs) = reverse xs ++ (x ∷ [])

module _ {ℓ κ} {A : Type ℓ} {B : Type κ} where
  -- `for x in xs { if let Some(b) = f(x) { return Some(b) } }`.
  unfoldable pub first_some : (A → Option B) → List A → Option B
  first_some f [] = none
  first_some f (x ∷ xs) = or_else (f x) (first_some f xs)

  -- The first result in a direction.
  unfoldable pub gather : Direction → (A → Option B) → List A → Option B
  gather dir f [] = none
  gather dir f (x ∷ xs) = either dir (f x) (gather dir f xs)

  pub gather-append :
      (dir : Direction) (f : A → Option B) (xs ys : List A)
      → gather dir f (xs ++ ys) ≡ either dir (gather dir f xs) (gather dir f ys)
  unfolding gather
  gather-append dir f [] ys = sym (none-either dir (gather dir f ys))
  gather-append dir f (x ∷ xs) ys =
      ap (either dir (f x)) (gather-append dir f xs ys)
      ∙ sym (either_assoc dir (f x) (gather dir f xs) (gather dir f ys))

  pub first_some-append :
      (f : A → Option B) (xs ys : List A)
      → first_some f (xs ++ ys) ≡ or_else (first_some f xs) (first_some f ys)
  unfolding first_some
  first_some-append f [] ys = refl
  first_some-append f (x ∷ xs) ys =
      ap (or_else (f x)) (first_some-append f xs ys)
      ∙ sym (or_else_assoc (f x) (first_some f xs) (first_some f ys))

  pub gather-forward : (f : A → Option B) (xs : List A) → first_some f xs ≡ gather forward f xs
  unfolding gather first_some
  gather-forward f [] = refl
  gather-forward f (x ∷ xs) = ap (or_else (f x)) (gather-forward f xs)

  pub gather-backward :
      (f : A → Option B) (xs : List A) → first_some f (reverse xs) ≡ gather backward f xs
  unfolding gather first_some
  gather-backward f [] = refl
  gather-backward f (x ∷ xs) =
      first_some-append f (reverse xs) (x ∷ [])
      ∙ ap₂ or_else (gather-backward f xs) (or_else-none (f x))

  pub gather-eq :
      (dir : Direction) (f g : A → Option B)
      → ((x : A) → f x ≡ g x)
      → (xs : List A) → gather dir f xs ≡ gather dir g xs
  unfolding gather
  gather-eq dir f g h [] = refl
  gather-eq dir f g h (x ∷ xs) = ap₂ (either dir) (h x) (gather-eq dir f g h xs)

  pub gather-filter :
      (dir : Direction) (f : A → Option B) (p : A → Bool) (xs : List A)
      → gather dir f (filter p xs) ≡ gather dir (λ x. if p x then f x else none) xs
  unfolding gather
  gather-filter dir f p [] = refl
  gather-filter dir f p (x ∷ xs) = elim (Bool-cases (p x)) [
    | inl yes' ↦ rw yes' (ap (either dir (f x)) (gather-filter dir f p xs))
    | inr no' ↦ rw no' (gather-filter dir f p xs ∙ sym (none-either dir _))
  ]

-- `flat_map`.
abbrev pub flat_map {ℓ κ} : {A : Type ℓ} {B : Type κ} → (A → List B) → List A → List B
flat_map g [] = []
flat_map g (x ∷ xs) = g x ++ flat_map g xs

module _ {ℓ κ μ} {A : Type ℓ} {B : Type κ} {C : Type μ} where
  pub gather-flat_map :
      (dir : Direction) (f : B → Option C) (g : A → List B) (xs : List A)
      → gather dir f (flat_map g xs) ≡ gather dir (λ x. gather dir f (g x)) xs
  unfolding gather
  gather-flat_map dir f g [] = refl
  gather-flat_map dir f g (x ∷ xs) =
      gather-append dir f (g x) (flat_map g xs)
      ∙ ap (either dir (gather dir f (g x))) (gather-flat_map dir f g xs)

  pub gather-map :
      (dir : Direction) (f : B → Option C) (g : A → B) (xs : List A)
      → gather dir f (map g xs) ≡ gather dir (λ x. f (g x)) xs
  unfolding gather
  gather-map dir f g [] = refl
  gather-map dir f g (x ∷ xs) = ap (either dir (f (g x))) (gather-map dir f g xs)
