-- ===== src/Plan/Expansion.antt =====
-- engine/src/plan.rs: completing a set that already covers every table changes nothing, and the
-- older file keeps its meaning when it is completed.
use mysql_ssh_db_sync.Prelude.{
  ◌≡◌, ◌≢◌, ◌⊎◌, inl, inr, refl, sym, ap, ◌∙◌, true, false, Option, none, some, List, [], ◌∷◌, ◌++◌,
  map, Text, text, if◌then◌else◌, find, any, All, All-Within, Within, here, there, strip_prefix,
  strip_prefix→append, ◌==◌, ==→eq, ==_self, list_eq, nat_eq, Bool-cases,
}
use mathlib.Core.Path.{ap₂}
use mysql_ssh_db_sync.Backup.{TableSelection, schema_and_data, structure_of, with_data}
use mysql_ssh_db_sync.Plan.{
  names_same_table, is_some_of, or_with_data, selection_for, expand_selections, parse_tables_conf,
  selections_from_tables_conf,
}

abbrev pub public : Text
public = text "public."

-- Two names that no saved name stands for at once.
abbrev pub Distinguished : Text → Text → Type 0
Distinguished n m = n ≢ m × n ≢ public ++ m × m ≢ public ++ n

-- The tables of a source, where no two are told apart by `public.` alone.
abbrev pub AreDistinguished : List Text → Type 0
AreDistinguished [] = Unit
AreDistinguished (n ∷ ns) = All (Distinguished n) ns × AreDistinguished ns

some_of : (o : Option Text) (s : Text) → is_some_of o s ≡ true → o ≡ some s
some_of none s h = cc
some_of (some rest) s h = ap some (==→eq rest s h)

same_cases : (s n : Text) → names_same_table s n ≡ true → (s ≡ n) ⊎ (n ≡ public ++ s)
unfolding names_same_table
same_cases s n h = elim (Bool-cases (s == n)) [
  | inl same ↦ inl (==→eq s n same)
  | inr other ↦
      inr (sym (strip_prefix→append public n s (some_of (strip_prefix public n) s (rw other at h))))
]

same_self : (n : Text) → names_same_table n n ≡ true
unfolding names_same_table
same_self n = rw (==_self n) refl

not_both :
    (s n m : Text) → names_same_table s n ≡ true → Distinguished n m → names_same_table s m ≡ false
not_both s n m h d = elim (Bool-cases (names_same_table s m)) [
  | inr no' ↦ no'
  | inl k ↦ absurd (clash (same_cases s n h) (same_cases s m k))
]
  where
    clash : (s ≡ n) ⊎ (n ≡ public ++ s) → (s ≡ m) ⊎ (m ≡ public ++ s) → ⊥
    clash (inl a) (inl b) = d.0 (sym a ∙ b)
    clash (inl a) (inr b) = d.2 (b ∙ ap (◌++◌ public) a)
    clash (inr a) (inl b) = d.1 (a ∙ ap (◌++◌ public) b)
    clash (inr a) (inr b) = d.0 (a ∙ sym b)

module _ (f : Text → TableSelection)
    (named : (n : Text) → names_same_table (f n).name n ≡ true) where
  find_own :
      (ns : List Text) (n : Text)
      → Within n ns
      → AreDistinguished ns
      → find (λ s. names_same_table s.name n) (map f ns) ≡ some (f n)
  find_own [] n w d = elim w [ ]
  find_own (m ∷ ns) n (here _) d = rw (named n) refl
  find_own (m ∷ ns) n (there _ w) d =
      rw (not_both (f m).name m n (named m) (All-Within (Distinguished m) ns d.0 w))
        (find_own ns n w d.1)

  selections_own :
      (all ns : List Text)
      → ((n : Text) → Within n ns → selection_for (map f all) n ≡ f n)
      → map (selection_for (map f all)) ns ≡ map f ns
  selections_own all [] h = refl
  selections_own all (n ∷ ns) h =
      ap₂ ◌∷◌ (h n (here ns)) (selections_own all ns (λ m w. h m (there n w)))

  -- A set that has an entry for every table is complete.
  expand_covering :
      (ns : List Text) → AreDistinguished ns → expand_selections (map f ns) ns ≡ map f ns
  unfolding expand_selections
  expand_covering ns d = selections_own ns ns (λ n w. ap (or_with_data n) (find_own ns n w d))

-- A saved name stands for a table of the source: as it is, or without the schema `public`.
abbrev pub StandsFor : Text → Text → Type 0
StandsFor saved n = (saved ≡ n) ⊎ (n ≡ public ++ saved)

-- The entry of a table is the first saved one that stands for it, with its mode and its filter, or,
-- if there is none, one that takes the table with its data and no filter.
abbrev pub IsEntry : List TableSelection → Text → TableSelection → Type 0
IsEntry selections n entry =
    ((before : List TableSelection) × (after : List TableSelection) × (selections
        ≡ before ++ (entry ∷ after))
      × StandsFor entry.name n
      × All (λ s. ¬ (StandsFor s.name n)) before)
    ⊎ ((entry ≡ record { name = n; mode = schema_and_data; where_filter = none })
        × All (λ s. ¬ (StandsFor s.name n)) selections)

-- One entry for each table, in the order of the tables.
abbrev pub Completes : List TableSelection → List Text → List TableSelection → Type 0
Completes selections [] [] = Unit
Completes selections (n ∷ ns) (entry ∷ entries) =
    IsEntry selections n entry × Completes selections ns entries
Completes selections _ _ = ⊥

abbrev conf_selection : List TableSelection → Text → TableSelection
conf_selection listed n =
    if any (λ s. names_same_table s.name n) listed then with_data n else structure_of n

conf_selection-name :
    (listed : List TableSelection) (n : Text)
    → names_same_table (conf_selection listed n).name n ≡ true
conf_selection-name listed n = elim (Bool-cases (any (λ s. names_same_table s.name n) listed)) [
  | inl data' ↦ rw data' (same_self n)
  | inr structure ↦ rw structure (same_self n)
]

-- What an older file means is kept when its set is completed: the tables that it does not name
-- stay without their rows.
pub expand_selections-selections_from_tables_conf :
    (contents : Text) (available : List Text)
    → AreDistinguished available
    → expand_selections (selections_from_tables_conf contents available) available
      ≡ selections_from_tables_conf contents available
unfolding selections_from_tables_conf
expand_selections-selections_from_tables_conf contents available d =
    let listed = parse_tables_conf contents in
    expand_covering (conf_selection listed) (conf_selection-name listed) available d
