-- ===== src/Prelude/Canonical.antt =====
-- A sort by a total order forgets the order of its input, where two items with the same key are
-- one item.
use mathlib.Core.Path.{◌≡◌, refl, sym, subst, ◌∙◌}
use mathlib.Core.Logic.{∥∥₁_elim}
use mathlib.Core.Bool.{Bool, true, false}
use mathlib.Core.List.{List, [], ◌∷◌, Perm, Permᴰ, is_set}
use native.Mathlib.Omega.{arith}
use mysql_ssh_db_sync.Prelude.Lists.{All}
use mysql_ssh_db_sync.Prelude.Sort.{insert_sorted, sort}

All-perm {ℓ κ} : {A : Type ℓ} (P : A → Type κ) {xs ys : List A} → Permᴰ xs ys → All P xs → All P ys
All-perm P Permᴰ.nil h = tt
All-perm P (Permᴰ.cons e d) h = (subst P e h.0, All-perm P d h.1)
All-perm P (Permᴰ.swap e e') h = (subst P e' h.1.0, (subst P e h.0, h.1.1))
All-perm P (Permᴰ.trans d d') h = All-perm P d' (All-perm P d h)

module _ {ℓ} {A : Type ℓ} (leq : A → A → Bool) where
  -- Two items with the same key are one item.
  abbrev pub SameItem : A → A → Type ℓ
  SameItem x y = leq x y ≡ true → leq y x ≡ true → x ≡ y

  abbrev pub DistinctKeys : List A → Type ℓ
  DistinctKeys [] = Unit
  DistinctKeys (x ∷ xs) = All (SameItem x) xs × DistinctKeys xs

  pub DistinctKeys-antisymm : ((x y : A) → SameItem x y) → (xs : List A) → DistinctKeys xs
  DistinctKeys-antisymm h [] = tt
  DistinctKeys-antisymm h (x ∷ xs) = (all_of xs, DistinctKeys-antisymm h xs)
    where
      all_of : (ys : List A) → All (SameItem x) ys
      all_of [] = tt
      all_of (y ∷ ys) = (h x y, all_of ys)

  SameItem-sym : (x y : A) → SameItem x y → SameItem y x
  SameItem-sym x y h p q = sym (h q p)

  DistinctKeys-perm : {xs ys : List A} → Permᴰ xs ys → DistinctKeys xs → DistinctKeys ys
  DistinctKeys-perm Permᴰ.nil h = tt
  DistinctKeys-perm (Permᴰ.cons {a} {b} {l₁ = xs} {l₂ = ys} e d) h =
      (subst (λ z. All (SameItem z) ys) e (All-perm _ d h.0), DistinctKeys-perm d h.1)
  DistinctKeys-perm (Permᴰ.swap {a} {b} {a'} {b'} {l} e e') h = (
    (
      subst (λ z. SameItem z b') e' (subst (SameItem b) e (SameItem-sym a b h.0.0)),
      subst (λ z. All (SameItem z) l) e' h.1.0,
    ),
    (subst (λ z. All (SameItem z) l) e h.0.1, h.1.1),
  )
  DistinctKeys-perm (Permᴰ.trans d d') h = DistinctKeys-perm d' (DistinctKeys-perm d h)

  module _ (total : (x y : A) → leq x y ≡ false → leq y x ≡ true)
      (trans : (x y z : A) → leq x y ≡ true → leq y z ≡ true → leq x z ≡ true) where
    insert_sorted_comm :
        (x y : A) (zs : List A)
        → SameItem x y
        → insert_sorted leq x (insert_sorted leq y zs)
          ≡ insert_sorted leq y (insert_sorted leq x zs)
    unfolding insert_sorted
    insert_sorted_comm x y [] h = ground (arith, h, total x y)
    insert_sorted_comm x y (z ∷ zs) h = ground (
      arith,
      h,
      total x y,
      total y x,
      trans x y z,
      trans y x z,
      total x z,
      total y z,
      trans x z y,
      trans y z x,
      insert_sorted_comm x y zs h,
    )

    sort_of_perm : {xs ys : List A} → Permᴰ xs ys → DistinctKeys xs → sort leq xs ≡ sort leq ys
    unfolding sort
    sort_of_perm Permᴰ.nil h = refl
    sort_of_perm (Permᴰ.cons {a} {b} {l₁ = xs} {l₂ = ys} e d) h = rw (e, sort_of_perm d h.1)
    sort_of_perm (Permᴰ.swap {a} {b} {a'} {b'} {l} e e') h =
        rw (← e, ← e') (insert_sorted_comm a b (sort leq l) h.0.0)
    sort_of_perm (Permᴰ.trans d d') h = sort_of_perm d h ∙ sort_of_perm d' (DistinctKeys-perm d h)

    pub sort_canonical :
        IsSet A → (xs ys : List A) → Perm xs ys → DistinctKeys xs → sort leq xs ≡ sort leq ys
    sort_canonical set xs ys p h = ∥∥₁_elim p (is_set set _ _) (λ d. sort_of_perm d h)
