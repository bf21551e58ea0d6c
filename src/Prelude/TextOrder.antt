-- ===== src/Prelude/TextOrder.antt =====
-- `Ord` on `String` and on pairs of strings is a total order.
use mathlib.Core.Path.{◌≡◌, refl}
use mathlib.Core.Bool.{Bool, true, false}
use mathlib.Core.List.{[], ◌∷◌}
use native.Mathlib.Omega.{arith}
use mysql_ssh_db_sync.Prelude.Tests.{if◌then◌else◌, ◌==◌, list_eq, nat_eq, ==_iff}
use mysql_ssh_db_sync.Prelude.Texts.{Text, text_leb}

pub text_leb_total : (s t : Text) → text_leb s t ≡ false → text_leb t s ≡ true
unfolding text_leb
text_leb_total [] t h = cc
text_leb_total (c ∷ s) [] h = refl
text_leb_total (c ∷ s) (d ∷ t) h = ground (arith, text_leb_total s t)

pub text_leb_trans :
    (s t u : Text) → text_leb s t ≡ true → text_leb t u ≡ true → text_leb s u ≡ true
unfolding text_leb
text_leb_trans [] t u h k = refl
text_leb_trans (c ∷ s) [] u h k = cc
text_leb_trans (c ∷ s) (d ∷ t) [] h k = cc
text_leb_trans (c ∷ s) (d ∷ t) (e ∷ u) h k = ground (arith, text_leb_trans s t u)

pub text_leb_antisymm : (s t : Text) → text_leb s t ≡ true → text_leb t s ≡ true → s ≡ t
unfolding text_leb
text_leb_antisymm [] [] h k = refl
text_leb_antisymm [] (d ∷ t) h k = cc
text_leb_antisymm (c ∷ s) [] h k = cc
text_leb_antisymm (c ∷ s) (d ∷ t) h k = ground (arith, text_leb_antisymm s t)

unfoldable pub pair_leb : Text × Text → Text × Text → Bool
pair_leb (a, b) (c, d) = if a == c then text_leb b d else text_leb a c

pub pair_leb_total : (p q : Text × Text) → pair_leb p q ≡ false → pair_leb q p ≡ true
unfolding pair_leb
pair_leb_total (a, b) (c, d) h =
    ground (arith, text_leb_total b d, text_leb_total a c, ==_iff a c, ==_iff c a)

pub pair_leb_trans :
    (p q r : Text × Text) → pair_leb p q ≡ true → pair_leb q r ≡ true → pair_leb p r ≡ true
unfolding pair_leb
pair_leb_trans (a, b) (c, d) (e, f) h k = ground (
  arith,
  text_leb_trans b d f,
  text_leb_trans a c e,
  text_leb_antisymm a c,
  text_leb_antisymm c e,
  ==_iff a c,
  ==_iff c e,
  ==_iff a e,
)

pub pair_leb_antisymm : (p q : Text × Text) → pair_leb p q ≡ true → pair_leb q p ≡ true → p ≡ q
unfolding pair_leb
pair_leb_antisymm (a, b) (c, d) h k =
    ground (arith, text_leb_antisymm b d, text_leb_antisymm a c, ==_iff a c, ==_iff c a)
