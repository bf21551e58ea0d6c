-- ===== src/Prelude/Replace.antt =====
-- `str::replace`.
use Prim.Native.Nat.{ℕ, zero, suc, ◌-◌}
use mathlib.Core.Path.{◌≡◌, refl, sym, ap, ◌∙◌}
use mathlib.Core.Logic.{inl, inr}
use mathlib.Core.Bool.{true, false}
use mathlib.Core.Option.{none, some}
use mathlib.Core.List.{[], ◌∷◌, ◌++◌, append_assoc}
use mysql_ssh_db_sync.Prelude.Tests.{nat_beq, Bool-cases}
use mysql_ssh_db_sync.Prelude.Lists.{length}
use mysql_ssh_db_sync.Prelude.Texts.{Text, strip_prefix}

-- `s.replace(p, to)`, for a `p` that is not empty; the next `skip` characters belong to the last
-- occurrence.
unfoldable pub replace : Text → Text → ℕ → Text → Text
unfolding strip_prefix
replace p to skip [] = []
replace p to (suc skip) (c ∷ s) = replace p to skip s
replace p to zero (c ∷ s) = elim (strip_prefix p (c ∷ s)) [
  | none ↦ c ∷ replace p to zero s
  | some _ ↦ to ++ replace p to (length p - 1) s
]

pub replace-hit :
    (c d : ℕ) (to s : Text)
    → nat_beq c d ≡ true
    → replace (c ∷ []) to 0 (d ∷ s) ≡ to ++ replace (c ∷ []) to 0 s
unfolding replace
replace-hit c d to s h =
    let hit : strip_prefix (c ∷ []) (d ∷ s) ≡ some s = unfold strip_prefix in rw h refl in
    rw (hit, replace) refl

strip_prefix-miss :
    (p d : ℕ) (ps s : Text) → nat_beq p d ≡ false → strip_prefix (p ∷ ps) (d ∷ s) ≡ none
unfolding strip_prefix
strip_prefix-miss p d ps s h = rw h refl

pub replace-miss :
    (p d : ℕ) (ps to s : Text)
    → nat_beq p d ≡ false
    → replace (p ∷ ps) to 0 (d ∷ s) ≡ d ∷ replace (p ∷ ps) to 0 s
unfolding replace
replace-miss p d ps to s h = rw (strip_prefix-miss p d ps s h, replace) refl

-- A replacement of one character works on each part.
pub replace-append :
    (c : ℕ) (to s t : Text)
    → replace (c ∷ []) to 0 (s ++ t) ≡ replace (c ∷ []) to 0 s ++ replace (c ∷ []) to 0 t
replace-append c to [] t = unfold replace in refl
replace-append c to (d ∷ s) t = elim (Bool-cases (nat_beq c d)) [
  | inl same ↦
      replace-hit c d to (s ++ t) same
      ∙ ap (◌++◌ to) (replace-append c to s t)
      ∙ sym (append_assoc to _ _)
      ∙ ap (λ u. u ++ replace (c ∷ []) to 0 t) (sym (replace-hit c d to s same))
  | inr other ↦
      replace-miss c d [] to (s ++ t) other
      ∙ ap (◌∷◌ d) (replace-append c to s t)
      ∙ ap (λ u. u ++ replace (c ∷ []) to 0 t) (sym (replace-miss c d [] to s other))
]
