-- ===== src/Prelude/Lists.antt =====
-- Lists measured by native numbers, and the iterator methods of the source by Boolean tests.
use Prim.Native.Nat.{ℕ, zero, suc, ◌+◌}
use mathlib.Core.Path.{◌≡◌, refl, subst}
use mathlib.Core.Bool.{Bool, true, false, ◌&&◌, ◌||◌}
use mathlib.Core.Logic.{inl, inr}
use mathlib.Core.Option.{Option, none, some}
use mathlib.Core.List.{List, [], ◌∷◌, ◌++◌}
use native.Mathlib.Omega.{arith}
use mysql_ssh_db_sync.Prelude.Tests.{if◌then◌else◌, PartialEq, ◌==◌, list_eq, nat_eq, Bool-cases}

module _ {ℓ} {A : Type ℓ} where
  abbrev pub length : List A → ℕ
  length [] = 0
  length (x ∷ xs) = suc (length xs)

  abbrev pub is_empty : List A → Bool
  is_empty [] = true
  is_empty (x ∷ xs) = false

  abbrev pub get_elem? : List A → ℕ → Option A
  get_elem? [] i = none
  get_elem? (x ∷ xs) zero = some x
  get_elem? (x ∷ xs) (suc i) = get_elem? xs i

  -- `iter().any`, `iter().all`, `iter().filter`, `iter().find`.
  abbrev pub any : (A → Bool) → List A → Bool
  any p [] = false
  any p (x ∷ xs) = p x || any p xs

  abbrev pub all : (A → Bool) → List A → Bool
  all p [] = true
  all p (x ∷ xs) = p x && all p xs

  abbrev pub filter : (A → Bool) → List A → List A
  filter p [] = []
  filter p (x ∷ xs) = let rest = filter p xs in if p x then x ∷ rest else rest

  abbrev pub find : (A → Bool) → List A → Option A
  find p [] = none
  find p (x ∷ xs) = let rest = find p xs in if p x then some x else rest

  pub length-append : (xs ys : List A) → length (xs ++ ys) ≡ length xs + length ys
  length-append [] ys = omega arith
  length-append (x ∷ xs) ys = omega (arith, length-append xs ys)

  pub any-append : (p : A → Bool) (xs ys : List A) → any p (xs ++ ys) ≡ (any p xs || any p ys)
  any-append p [] ys = refl
  any-append p (x ∷ xs) ys = ground (arith, any-append p xs ys)

  pub filter-append :
      (p : A → Bool) (xs ys : List A) → filter p (xs ++ ys) ≡ filter p xs ++ filter p ys
  filter-append p [] ys = refl
  filter-append p (x ∷ xs) ys = ground (arith, filter-append p xs ys)

-- A predicate of every member, as a tuple that the tactics read and build.
abbrev pub All {ℓ κ} : {A : Type ℓ} → (A → Type κ) → List A → Type κ
All P [] = Unit
All P (x ∷ xs) = P x × All P xs

module _ {ℓ} {A : Type ℓ} where
  pub All-map {κ κ'} :
      (P : A → Type κ) (Q : A → Type κ') (f : (x : A) → P x → Q x) (xs : List A)
      → All P xs
      → All Q xs
  All-map P Q f [] h = tt
  All-map P Q f (x ∷ xs) h = (f x h.0, All-map P Q f xs h.1)

  pub All-true {κ} : (P : A → Type κ) → ((x : A) → P x) → (xs : List A) → All P xs
  All-true P f [] = tt
  All-true P f (x ∷ xs) = (f x, All-true P f xs)

  pub All-both {κ κ' κ''} :
      (P : A → Type κ) (Q : A → Type κ') (R : A → Type κ'')
      → ((x : A) → P x → Q x → R x)
      → (xs : List A) → All P xs
      → All Q xs
      → All R xs
  All-both P Q R f [] h k = tt
  All-both P Q R f (x ∷ xs) h k = (f x h.0 k.0, All-both P Q R f xs h.1 k.1)

  -- A list holds a value: the value's place, without the library's truncation.
  pub data Within (a : A) : List A → Type ℓ where
    here : (xs : List A) → Within a (a ∷ xs)
    there : (x : A) {xs : List A} → Within a xs → Within a (x ∷ xs)

  pub All-Within {κ} : (P : A → Type κ) {a : A} (xs : List A) → All P xs → Within a xs → P a
  All-Within P [] h w = elim w [ ]
  All-Within P (x ∷ xs) h (here _) = h.0
  All-Within P (x ∷ xs) h (there _ w) = All-Within P xs h.1 w

module _ {ℓ} {A : Type ℓ} ⦃eq : PartialEq A⦄ where
  -- `Vec::contains`.
  abbrev pub contains : List A → A → Bool
  contains xs a = any (λ x. x == a) xs

  -- How often a value occurs.
  abbrev pub count : A → List A → ℕ
  count a [] = 0
  count a (x ∷ xs) = let rest = count a xs in if x == a then suc rest else rest

module _ {ℓ} {A : Type ℓ} where
  abbrev pub take : ℕ → List A → List A
  take zero xs = []
  take (suc n) [] = []
  take (suc n) (x ∷ xs) = x ∷ take n xs

  abbrev pub drop : ℕ → List A → List A
  drop zero xs = xs
  drop (suc n) [] = []
  drop (suc n) (x ∷ xs) = drop n xs

  -- `iter().map(f).sum()`, with no wrap.
  abbrev pub sum_by : (A → ℕ) → List A → ℕ
  sum_by f [] = 0
  sum_by f (x ∷ xs) = f x + sum_by f xs

  pub sum_by-append : (f : A → ℕ) (xs ys : List A) → sum_by f (xs ++ ys) ≡ sum_by f xs + sum_by f ys
  sum_by-append f [] ys = omega arith
  sum_by-append f (x ∷ xs) ys = omega (arith, sum_by-append f xs ys)

  -- `find` and `filter` come back empty exactly where no member passes.
  pub find-none : (p : A → Bool) (xs : List A) → find p xs ≡ none → All (λ x. p x ≡ false) xs
  find-none p [] h = tt
  find-none p (x ∷ xs) h = (ground arith, find-none p xs (ground arith))

  pub find_of_All : (p : A → Bool) (xs : List A) → All (λ x. p x ≡ false) xs → find p xs ≡ none
  find_of_All p [] h = refl
  find_of_All p (x ∷ xs) h = rw h.0 (find_of_All p xs h.1)

  pub find-some :
      (p : A → Bool) (xs : List A) (x : A) → find p xs ≡ some x → Within x xs × (p x ≡ true)
  find-some p [] x h = cc
  find-some p (y ∷ ys) x h = elim (Bool-cases (p y)) [
    | inl yes' ↦
        let same : y ≡ x = ground arith in
        (subst (λ z. Within z (y ∷ ys)) same (here ys), rw (← same) yes')
    | inr no' ↦ let rest = find-some p ys x (rw no' at h) in (there y rest.0, rest.1)
  ]

  pub filter-ne-nil :
      (p : A → Bool) (xs : List A)
      → is_empty (filter p xs) ≡ false
      → (x : A) × Within x xs × (p x ≡ true)
  filter-ne-nil p [] h = cc
  filter-ne-nil p (y ∷ ys) h = elim (Bool-cases (p y)) [
    | inl yes' ↦ (y, here ys, yes')
    | inr no' ↦ let rest = filter-ne-nil p ys (rw no' at h) in (rest.0, there y rest.1, rest.2)
  ]

  pub filter_of_Within :
      (p : A → Bool) (xs : List A) {x : A}
      → Within x xs
      → p x ≡ true
      → is_empty (filter p xs) ≡ false
  filter_of_Within p [] w h = elim w [ ]
  filter_of_Within p (y ∷ ys) (here _) h = rw h
  filter_of_Within p (y ∷ ys) (there _ w) h = ground (arith, filter_of_Within p ys w h)

  pub any-false : (p : A → Bool) (xs : List A) → any p xs ≡ false → All (λ x. p x ≡ false) xs
  any-false p [] h = tt
  any-false p (x ∷ xs) h = (ground arith, any-false p xs (ground arith))

  pub any_of_All : (p : A → Bool) (xs : List A) → All (λ x. p x ≡ false) xs → any p xs ≡ false
  any_of_All p [] h = refl
  any_of_All p (x ∷ xs) h = rw h.0 (any_of_All p xs h.1)

-- `get` on a map that is kept as the list of its entries.
unfoldable pub lookup {ℓ} : {V : Type ℓ} → List ℕ → List (List ℕ × V) → Option V
lookup k [] = none
lookup k ((k', v) ∷ entries) = let rest = lookup k entries in if k' == k then some v else rest
