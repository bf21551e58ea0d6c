-- ===== src/Prelude/Ranges.antt =====
-- Searches through a range of numbers from either end.
use Prim.Native.Nat.{ℕ, zero, suc, ◌+◌, ◌*◌, ◌≤◌, ◌<◌}
use mathlib.Core.Path.{◌≡◌, refl, sym, ap, ap₂, ◌∙◌}
use mathlib.Core.Logic.{inl, inr}
use mathlib.Core.Option.{Option, none, some}
use native.Mathlib.Omega.{arith}
use native.Mathlib.Nat.{add-zero}
use mysql_ssh_db_sync.Prelude.Tests.{Bool-cases, Option-cases, nat_beq}
use mysql_ssh_db_sync.Prelude.Search.{
  Direction, forward, backward, range, either, either_assoc, either-none, none-either, gather,
}

pub either_nothing {ℓ} :
    {A : Type ℓ} (dir : Direction) (a b : Option A)
    → either dir a b ≡ none
    → (a ≡ none) × (b ≡ none)
either_nothing forward none b h = (refl, h)
either_nothing forward (some x) b h = cc
either_nothing backward a none h = (h, refl)
either_nothing backward a (some x) h = cc

-- Closer to the end at which a search starts.
abbrev pub Nearer : Direction → ℕ → ℕ → Type 0
Nearer forward j k = j < k
Nearer backward j k = k < j

module _ {ℓ} {B : Type ℓ} (dir : Direction) (f : ℕ → Option B) where
  -- A search over a range is one over its two parts.
  pub gather-range_add :
      (s a b : ℕ)
      → gather dir f (range s (a + b))
        ≡ either dir (gather dir f (range s a)) (gather dir f (range (s + a) b))
  unfolding gather
  gather-range_add s zero b =
      let same : 0 + b ≡ b = omega arith in
      rw (same, add-zero) (sym (none-either dir (gather dir f (range s b))))
  gather-range_add s (suc a) b =
      let moved : suc s + a ≡ s + suc a = omega arith in
      let more : suc a + b ≡ suc (a + b) = omega arith in
      rw more (
        ap (either dir (f s)) (rw moved at (gather-range_add (suc s) a b))
        ∙ sym (
            either_assoc dir (f s) (gather dir f (range (suc s) a))
              (gather dir f (range (s + suc a) b))))

  -- One that finds nothing on a range.
  pub gather-none :
      (s n : ℕ) → ((k : ℕ) → s ≤ k → k < s + n → f k ≡ none) → gather dir f (range s n) ≡ none
  unfolding gather
  gather-none s zero h = refl
  gather-none s (suc n) h = rw (h s (omega arith) (omega arith)) (
      none-either dir (gather dir f (range (suc s) n))
      ∙ gather-none (suc s) n (λ k a b. h k (omega arith) (omega arith)))

  -- A range of `n` blocks of a size is one long range.
  pub gather-blocks :
      (size s n : ℕ)
      → gather dir (λ block. gather dir f (range (block * size) size)) (range s n)
        ≡ gather dir f (range (s * size) (n * size))
  unfolding gather
  gather-blocks size s zero = let nothing : 0 * size ≡ 0 = omega arith in rw nothing refl
  gather-blocks size s (suc n) =
      let next : suc s * size ≡ s * size + size = omega arith in
      let more : suc n * size ≡ size + n * size = omega arith in
      rw more (
        ap (either dir (gather dir f (range (s * size) size)))
          (rw next at (gather-blocks size (suc s) n))
        ∙ sym (gather-range_add (s * size) size (n * size)))

  -- Results that agree on a range.
  pub gather-range_eq :
      (g : ℕ → Option B) (s n : ℕ)
      → ((k : ℕ) → s ≤ k → k < s + n → f k ≡ g k)
      → gather dir f (range s n) ≡ gather dir g (range s n)
  unfolding gather
  gather-range_eq g s zero h = refl
  gather-range_eq g s (suc n) h =
      ap₂ (either dir) (h s (omega arith) (omega arith))
        (gather-range_eq g (suc s) n (λ k a b. h k (omega arith) (omega arith)))

  pub gather-range_shift :
      (base s n : ℕ)
      → gather dir f (range (base + s) n) ≡ gather dir (λ k. f (base + k)) (range s n)
  unfolding gather
  gather-range_shift base s zero = refl
  gather-range_shift base s (suc n) =
      let moved : base + suc s ≡ suc (base + s) = omega arith in
      ap (either dir (f (base + s))) (rw moved at (gather-range_shift base (suc s) n))

  -- A part that finds nothing can be left out.
  pub gather_skip :
      (s a b : ℕ)
      → ((k : ℕ) → s ≤ k → k < s + a → f k ≡ none)
      → gather dir f (range s (a + b)) ≡ gather dir f (range (s + a) b)
  gather_skip s a b h =
      gather-range_add s a b
      ∙ rw (gather-none s a h) (none-either dir (gather dir f (range (s + a) b)))

  pub gather_cut :
      (s a b : ℕ)
      → ((k : ℕ) → s + a ≤ k → k < s + a + b → f k ≡ none)
      → gather dir f (range s (a + b)) ≡ gather dir f (range s a)
  gather_cut s a b h =
      gather-range_add s a b
      ∙ rw (gather-none (s + a) b h) (either-none dir (gather dir f (range s a)))

module _ {ℓ} {B : Type ℓ} (f : ℕ → Option B) where
  -- A result on a range with no result nearer to the end where the search starts.
  abbrev pub NearestAt : Direction → ℕ → ℕ → B → ℕ → Type ℓ
  NearestAt dir s n b k =
      (s ≤ k)
      × (k < s + n)
      × (f k ≡ some b)
      × ((j : ℕ) → s ≤ j → j < s + n → Nearer dir j k → f j ≡ none)

  pub gather_nothing :
      (dir : Direction) (s n : ℕ)
      → gather dir f (range s n) ≡ none
      → (k : ℕ) → s ≤ k
      → k < s + n
      → f k ≡ none
  unfolding gather
  gather_nothing dir s zero h k a b = absurd (omega (arith, a, b))
  gather_nothing dir s (suc n) h k a b =
      let (first, others) = either_nothing dir (f s) (gather dir f (range (suc s) n)) h in
      elim (Bool-cases (nat_beq k s)) [
        | inl same ↦ let e : k ≡ s = ground arith in rw e first
        | inr other ↦ gather_nothing dir (suc s) n others k (ground arith) (omega arith)
      ]

  -- What a search finds.
  pub gather_found :
      (dir : Direction) (s n : ℕ) (b : B)
      → gather dir f (range s n) ≡ some b
      → (k : ℕ) × NearestAt dir s n b k
  unfolding gather
  gather_found dir s zero b h = cc
  gather_found forward s (suc n) b h = elim (Option-cases (f s)) [
    | inr (x, e) ↦
        let same : x ≡ b = ground arith in
        (
          s,
          (
            omega arith,
            omega arith,
            e ∙ ap some same,
            λ j p q near. absurd (omega (arith, p, near)),
          ),
        )
    | inl e ↦
        let (k, (p, q, r, first)) = gather_found forward (suc s) n b (rw e at h) in
        (
          k,
          (
            omega arith,
            omega arith,
            r,
            λ j p' q' near. elim (Bool-cases (nat_beq j s)) [
              | inl same ↦ let e' : j ≡ s = ground arith in rw e' e
              | inr other ↦ first j (ground arith) (omega arith) near
            ],
          ),
        )
  ]
  gather_found backward s (suc n) b h = elim (Option-cases (gather backward f (range (suc s) n))) [
    | inr (x, e) ↦
        let same : x ≡ b = ground arith in
        let (k, (p, q, r, last)) = gather_found backward (suc s) n b (e ∙ ap some same) in
        (
          k,
          (
            omega arith,
            omega arith,
            r,
            λ j p' q' near. last j (omega (arith, p, near)) (omega arith) near,
          ),
        )
    | inl e ↦
        let rest : f s ≡ some b = rw e at h in
        (
          s,
          (
            omega arith,
            omega arith,
            rest,
            λ j p q near. gather_nothing backward (suc s) n e j near (omega arith),
          ),
        )
  ]
