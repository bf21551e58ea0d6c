-- ===== src/Cron/Values.antt =====
-- engine/src/cron.rs: the loop over the values of a part ends, and sets the bits that the part
-- means.
use Prim.Native.Nat.{bit_or}
use native.Mathlib.Nat.{mod-eq_of_lt, mod-eq-sub-mod}
use mysql_ssh_db_sync.Prelude.{
  ℕ, zero, suc, ◌+◌, ◌-◌, ◌%◌, ◌^◌, ◌≤◌, ◌<◌, ◌≡◌, refl, sym, ap, subst, ◌∙◌, inl, inr, Bool, ◌&&◌,
  ◌||◌, leb, nat_beq, arith, Bool-cases,
}
use mysql_ssh_db_sync.Cron.{bit, has}
use mysql_ssh_db_sync.Cron.Bits.{has-bit_or, has-bit}
use mysql_ssh_db_sync.Cron.Parse.{value_loop, add_values}

-- What a part means: every `step`th value from `lo` up to `hi`.
unfoldable pub selects : ℕ → ℕ × ℕ × ℕ → Bool
selects u (lo, hi, step) = leb lo u && (leb u hi && nat_beq ((u - lo) % step) 0)

selects_first :
    (u v hi step : ℕ)
    → v ≤ hi
    → 0 < step
    → selects u (v, hi, step) ≡ (nat_beq u v || selects u (v + step, hi, step))
unfolding selects
selects_first u v hi step h pos = elim (Bool-cases (leb (v + step) u)) [
  | inl far ↦
      let fold = mod-eq-sub-mod {n = u - v} {m = step} (ground arith) in ground (arith, fold)
  | inr near ↦ elim (Bool-cases (leb v u)) [
    | inl in_step ↦
        let small = mod-eq_of_lt {n = u - v} {m = step} (ground arith) in ground (arith, small)
    | inr below ↦ ground arith
  ]
]

value_loop_done : (fuel v hi step bits : ℕ) → hi < v → value_loop fuel v hi step bits ≡ bits
unfolding value_loop
value_loop_done zero v hi step bits h = refl
value_loop_done (suc fuel) v hi step bits h = ground arith

-- One round, of which the next value is known.
value_loop_round :
    (fuel v next hi step bits : ℕ)
    → v ≤ hi
    → (v + step) % 2 ^ 32 ≡ next
    → value_loop (suc fuel) v hi step bits ≡ value_loop fuel next hi step (bit_or bits (bit v))
unfolding value_loop
value_loop_round fuel v next hi step bits h e =
    ground arith ∙ ap (λ n. value_loop fuel n hi step (bit_or bits (bit v))) e

-- With no wrap-around.
value_loop-selects :
    (fuel v hi step bits u : ℕ)
    → 0 < step
    → hi + step < 2 ^ 32
    → hi < v + fuel
    → has (value_loop fuel v hi step bits) u ≡ (has bits u || selects u (v, hi, step))
unfolding value_loop
value_loop-selects zero v hi step bits u pos fits long = unfold selects in ground arith
value_loop-selects (suc fuel) v hi step bits u pos fits long = elim (Bool-cases (leb v hi)) [
  | inl more ↦
      let le : v ≤ hi = ground arith in
      let next : (v + step) % 2 ^ 32 ≡ v + step = mod-eq_of_lt (omega arith) in
      let rest =
        value_loop-selects fuel (v + step) hi step (bit_or bits (bit v)) u pos fits (omega arith) in
      let split = selects_first u v hi step le pos in
      ap (λ set. has set u) (value_loop_round fuel v (v + step) hi step bits le next)
      ∙ (rest ∙ ground (arith, has-bit_or u bits (bit v), has-bit v u, split))
  | inr done ↦
      ap (λ set. has set u) (value_loop_done (suc fuel) v hi step bits (ground arith))
      ∙ unfold selects in ground arith
]

-- The loop of the code, with no bound on its rounds: `Runs hi step v bits result` holds if the loop,
-- at the value `v` with the bits set so far, ends and leaves `result`.
pub data Runs (hi step : ℕ) : ℕ → ℕ → ℕ → Type 0 where
  ends : {v bits : ℕ} → hi < v → Runs hi step v bits bits
  round :
      {v bits result : ℕ}
      → v ≤ hi
      → Runs hi step ((v + step) % 2 ^ 32) (bit_or bits (bit v)) result
      → Runs hi step v bits result

value_loop_stops :
    (n v hi step bits : ℕ) → hi < v → Runs hi step v bits (value_loop n v hi step bits)
value_loop_stops n v hi step bits h =
    subst (Runs hi step v bits) (sym (value_loop_done n v hi step bits h)) (ends h)

value_loop_goes :
    (n v next hi step bits : ℕ)
    → v ≤ hi
    → (v + step) % 2 ^ 32 ≡ next
    → Runs hi step next (bit_or bits (bit v)) (value_loop n next hi step (bit_or bits (bit v)))
    → Runs hi step v bits (value_loop (suc n) v hi step bits)
value_loop_goes n v next hi step bits h e rest =
    subst (Runs hi step v bits) (sym (value_loop_round n v next hi step bits h e)) (
      round h (
        subst
          (λ u.
            Runs hi step u (bit_or bits (bit v)) (value_loop n next hi step (bit_or bits (bit v))))
          (sym e) rest))

-- With a step that never wraps around, each round goes up.
value_loop_up :
    (n v hi step bits : ℕ)
    → 0 < step
    → hi + step < 2 ^ 32
    → hi < v + n
    → Runs hi step v bits (value_loop n v hi step bits)
value_loop_up zero v hi step bits pos fits long = value_loop_stops zero v hi step bits (omega arith)
value_loop_up (suc n) v hi step bits pos fits long = elim (Bool-cases (leb v hi)) [
  | inl go ↦
      value_loop_goes n v (v + step) hi step bits (ground arith) (mod-eq_of_lt (ground arith))
        (value_loop_up n (v + step) hi step (bit_or bits (bit v)) pos fits (omega arith))
  | inr done ↦ value_loop_stops (suc n) v hi step bits (ground arith)
]

-- With a step that wraps around, each round but the last goes down.
value_loop_down :
    (n v hi step bits : ℕ)
    → hi < 64
    → 2 ^ 32 ≤ hi + step
    → step < 2 ^ 32
    → v < n
    → Runs hi step v bits (value_loop n v hi step bits)
value_loop_down zero v hi step bits small wraps word fits = absurd (omega arith)
value_loop_down (suc n) v hi step bits small wraps word fits = elim (Bool-cases (leb v hi)) [
  | inl go ↦
      let le : v ≤ hi = ground arith in
      elim (Bool-cases (leb (2 ^ 32) (v + step))) [
        | inl wrapped ↦
            let next : (v + step) % 2 ^ 32 ≡ v + step - 2 ^ 32 =
              mod-eq-sub-mod (ground arith) ∙ mod-eq_of_lt (omega arith) in
            value_loop_goes n v (v + step - 2 ^ 32) hi step bits le next (
              value_loop_down n (v + step - 2 ^ 32) hi step (bit_or bits (bit v)) small wraps word
                (omega arith))
        | inr last ↦
            value_loop_goes n v (v + step) hi step bits (ground arith) (mod-eq_of_lt (ground arith))
              (value_loop_stops n (v + step) hi step (bit_or bits (bit v)) (omega arith))
      ]
  | inr done ↦ value_loop_stops (suc n) v hi step bits (ground arith)
]

-- The loop over the values of a part, whose rounds the code does not bound, ends, for every step that
-- a `u32` holds, also one that wraps around, and what it leaves is what 64 rounds leave.
pub value_loop_ends :
    (lo hi step bits : ℕ)
    → lo ≤ hi
    → hi < 64
    → 0 < step
    → step < 2 ^ 32
    → Runs hi step lo bits (value_loop 64 lo hi step bits)
value_loop_ends lo hi step bits le small pos word = elim (Bool-cases (leb (2 ^ 32) (hi + step))) [
  | inl wraps ↦ value_loop_down 64 lo hi step bits small (ground arith) word (omega arith)
  | inr fits ↦ value_loop_up 64 lo hi step bits pos (ground arith) (omega arith)
]

-- The bits that a part adds.
pub add_values-selects :
    (lo hi step bits u : ℕ)
    → hi < 64
    → 0 < step
    → hi + step < 2 ^ 32
    → has (add_values (lo, hi, step) bits) u ≡ (has bits u || selects u (lo, hi, step))
add_values-selects lo hi step bits u small pos fits =
    value_loop-selects 64 lo hi step bits u pos fits (omega arith)
