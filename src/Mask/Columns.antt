-- ===== src/Mask/Columns.antt =====
-- engine/src/mask/mod.rs: the column or field that `plan_coverage` looks for.
use mysql_ssh_db_sync.Prelude.{
  ◌≡◌, ◌⊎◌, ◌++◌, refl, ap, inl, inr, true, List, [], ◌∷◌, Text, nat_beq, contains, split, Lacks,
  list_eq, nat_eq, arith, Bool-cases,
}
use mysql_ssh_db_sync.Types.{Engine, mysql, postgres, mongo}
use mysql_ssh_db_sync.Mask.{MaskRule, wanted}

-- The part of a path that stands before its first dot, or all of it.
abbrev pub IsRoot : Text → Text → Type 0
IsRoot root path = Lacks 46 root × ((path ≡ root) ⊎ ((rest : Text) × (path ≡ root ++ (46 ∷ rest))))

split-IsRoot :
    (s : Text) → (root : Text) × (more : List Text) × (split 46 s ≡ root ∷ more) × IsRoot root s
unfolding split
split-IsRoot [] = ([], [], refl, (tt, inl refl))
split-IsRoot (c ∷ s) = elim (Bool-cases (nat_beq c 46)) [
  | inl dot ↦
      let same : c ≡ 46 = ground (arith, dot) in
      ([], split 46 s, rw dot refl, (tt, inr (s, ap (λ d. d ∷ s) same)))
  | inr other ↦
      let (root, more, e, reads) = split-IsRoot s in
      (c ∷ root, more, rw (other, e) refl, ((ground (arith, other), reads.0), longer root reads.1))
]
  where
    longer :
        (root : Text)
        → (s ≡ root) ⊎ ((rest : Text) × (s ≡ root ++ (46 ∷ rest)))
        → (c ∷ s ≡ c ∷ root) ⊎ ((rest : Text) × (c ∷ s ≡ c ∷ root ++ (46 ∷ rest)))
    longer root (inl whole) = inl (ap (◌∷◌ c) whole)
    longer root (inr (rest, cut)) = inr (rest, ap (◌∷◌ c) cut)

-- The columns of a table hold the one that a rule is for; of a collection, whose columns are its
-- top-level fields, only the root of the rule's path is asked for.
abbrev pub HasColumn : Engine → List Text → Text → Type 0
HasColumn mongo columns path = (root : Text) × IsRoot root path × (contains columns root ≡ true)
HasColumn _ columns path = contains columns path ≡ true

pub wanted-HasColumn :
    (engine : Engine) (columns : List Text) (r : MaskRule)
    → contains columns (wanted engine r) ≡ true
    → HasColumn engine columns r.column
unfolding wanted
wanted-HasColumn mongo columns r h =
    let (root, more, e, reads) = split-IsRoot r.column in (root, reads, rw e at h)
wanted-HasColumn mysql columns r h = h
wanted-HasColumn postgres columns r h = h
