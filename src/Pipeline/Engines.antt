-- ===== src/Pipeline/Engines.antt =====
-- What `validate_against` accepts (engine/src/pipeline.rs).
use mysql_ssh_db_sync.Prelude.{
  ℕ, suc, ◌≡◌, ◌↔◌, refl, ap, inl, inr, true, Option, none, some, List, [], ◌∷◌, ◌++◌, ==→eq,
  ==_self, nat_eq, if◌then◌else◌, All, Bool-cases, arith,
}
use mysql_ssh_db_sync.Types.{Engine, ConnectionProfile, engine_eq}
use mysql_ssh_db_sync.Pipeline.{
  ArtifactSource, previous_step, newest_in_directory, file, is_previous, PipelineStep, backup,
  restore, verify, mask, push_offsite, retention, drill, profile_id, Pipeline, validate_steps,
}
use mysql_ssh_db_sync.Pipeline.Spec.{IsWellFormed}
use mysql_ssh_db_sync.Pipeline.Steps.{then_check-none, validate_steps-IsWellFormed}
use mysql_ssh_db_sync.Pipeline.Connections.{
  engine_of, is_known, check_profiles, mismatch, tagged, check_engine, carry, check_engines,
  validate_against,
}

abbrev carried_engine : Option (Engine × ℕ) → Option Engine
carried_engine none = none
carried_engine (some (e, n)) = some e

module _ (profiles : List ConnectionProfile) where
  -- The engine of the newest backup after some steps, if `before` is that before them.
  abbrev pub newest_engine : Option Engine → List PipelineStep → Option Engine
  newest_engine before [] = before
  newest_engine before (backup b ∷ steps) = newest_engine (engine_of profiles b.profile_id) steps
  newest_engine before (_ ∷ steps) = newest_engine before steps

  -- A restore of what the chain has backed up is into a server of that engine.
  abbrev pub SameEngine : Option Engine → PipelineStep → Type 0
  SameEngine source (restore r) =
      r.source ≡ previous_step
      → (a b : Engine) → source ≡ some a
      → engine_of profiles r.profile_id ≡ some b
      → a ≡ b
  SameEngine source _ = Unit

  abbrev AllSame : Option Engine → List PipelineStep → Type 0
  AllSame source [] = Unit
  AllSame source (step ∷ steps) =
      SameEngine source step × AllSame (newest_engine source (step ∷ [])) steps

  mismatch_iff :
      (carried : Option (Engine × ℕ)) (dest : Option Engine) (n : ℕ)
      → (mismatch carried dest n ≡ none)
        ↔ ((a b : Engine) → carried_engine carried ≡ some a → dest ≡ some b → a ≡ b)
  unfolding mismatch
  mismatch_iff none dest n = (λ h a b e e'. cc, λ h. refl)
  mismatch_iff (some (a, k)) none n = (λ h a' b e e'. cc, λ h. refl)
  mismatch_iff (some (a, k)) (some b) n = (
    λ h a' b' e e'. let same : a ≡ b = ==→eq a b (ground arith) in cc,
    λ h. rw (h a b refl refl, ==_self b) refl,
  )

  restore_iff :
      (source : ArtifactSource) (carried : Option (Engine × ℕ)) (dest : Option Engine) (n : ℕ)
      → ((if is_previous source then mismatch carried dest n else none) ≡ none) ↔ (
          source ≡ previous_step
          → (a b : Engine) → carried_engine carried ≡ some a
          → dest ≡ some b
          → a ≡ b)
  restore_iff previous_step carried dest n =
      (λ h s. (mismatch_iff carried dest n).0 h, λ h. (mismatch_iff carried dest n).1 (h refl))
  restore_iff (newest_in_directory dir) carried dest n = (λ h s. cc, λ h. refl)
  restore_iff (file path) carried dest n = (λ h s. cc, λ h. refl)

  engine_iff :
      (carried : Option (Engine × ℕ)) (n : ℕ) (step : PipelineStep)
      → (check_engine profiles carried n step ≡ none) ↔ SameEngine (carried_engine carried) step
  unfolding check_engine
  engine_iff carried n (restore r) =
      restore_iff r.source carried (engine_of profiles r.profile_id) n
  engine_iff carried n (backup b) = (λ h. tt, λ h. refl)
  engine_iff carried n (verify deep) = (λ h. tt, λ h. refl)
  engine_iff carried n (mask rules) = (λ h. tt, λ h. refl)
  engine_iff carried n push_offsite = (λ h. tt, λ h. refl)
  engine_iff carried n (retention policy) = (λ h. tt, λ h. refl)
  engine_iff carried n (drill d) = (λ h. tt, λ h. refl)

  carried-tagged : (o : Option Engine) (n : ℕ) → carried_engine (tagged o n) ≡ o
  carried-tagged none n = refl
  carried-tagged (some e) n = refl

  carried-carry :
      (carried : Option (Engine × ℕ)) (n : ℕ) (step : PipelineStep)
      → carried_engine (carry profiles carried n step)
        ≡ newest_engine (carried_engine carried) (step ∷ [])
  carried-carry carried n (backup b) = carried-tagged (engine_of profiles b.profile_id) n
  carried-carry carried n (_) = refl

  engines_iff :
      (carried : Option (Engine × ℕ)) (n : ℕ) (steps : List PipelineStep)
      → (check_engines profiles carried n steps ≡ none) ↔ AllSame (carried_engine carried) steps
  unfolding check_engines
  engines_iff carried n [] = (λ h. tt, λ h. refl)
  engines_iff carried n (step ∷ steps) =
      let next = engines_iff (carry profiles carried n step) (suc n) steps in
      let same = carried-carry carried n step in
      (
        λ h.
            let (this, others) = then_check-none (check_engine profiles carried n step) _ h in
            ((engine_iff carried n step).0 this, rw same at (next.0 others)),
        λ h. rw ((engine_iff carried n step).1 h.0) (next.1 (rw same h.1)),
      )

  AllSame-at :
      (source : Option Engine) (before : List PipelineStep) (step : PipelineStep)
      (after : List PipelineStep)
      → AllSame source (before ++ step ∷ after)
      → SameEngine (newest_engine source before) step
  AllSame-at source [] step after h = h.0
  AllSame-at source (backup b ∷ before) step after h =
      AllSame-at (engine_of profiles b.profile_id) before step after h.1
  AllSame-at source (s ∷ before) step after h = AllSame-at source before step after h.1

  AllSame-of :
      (source : Option Engine) (steps : List PipelineStep)
      → ((before : List PipelineStep) (step : PipelineStep) (after : List PipelineStep)
          → before ++ step ∷ after ≡ steps
          → SameEngine (newest_engine source before) step)
      → AllSame source steps
  AllSame-of source [] h = tt
  AllSame-of source (backup b ∷ steps) h = (
    h [] (backup b) steps refl,
    AllSame-of (engine_of profiles b.profile_id) steps
        (λ before step after e. h (backup b ∷ before) step after (ap (◌∷◌ (backup b)) e)),
  )
  AllSame-of source (s ∷ steps) h = (
    h [] s steps refl,
    AllSame-of source steps (λ before step after e. h (s ∷ before) step after (ap (◌∷◌ s) e)),
  )

  abbrev pub AllKnown : List PipelineStep → Type 0
  AllKnown steps = All (λ step. is_known profiles (profile_id step) ≡ true) steps

  profiles_iff :
      (n : ℕ) (steps : List PipelineStep)
      → (check_profiles profiles n steps ≡ none) ↔ AllKnown steps
  unfolding check_profiles
  profiles_iff n [] = (λ h. tt, λ h. refl)
  profiles_iff n (step ∷ steps) =
      let rest = profiles_iff (suc n) steps in
      (
        λ h. elim (Bool-cases (is_known profiles (profile_id step))) [
          | inl known ↦ (known, rest.0 (rw known at h))
          | inr unknown ↦ absurd (let wrong = rw unknown at h in cc)
        ],
        λ h. rw h.0 (rest.1 h.1),
      )

-- A chain can run on the saved connections: it is well formed, each connection that a step names is one
-- of them, and a restore of what the chain has backed up is into a server of the same engine.
pub record RunsOn (p : Pipeline) (profiles : List ConnectionProfile) : Type 0 where
  pub formed : IsWellFormed p.name p.steps
  pub known : AllKnown profiles p.steps
  pub same_engine :
      (before : List PipelineStep) (step : PipelineStep) (after : List PipelineStep)
      → before ++ step ∷ after ≡ p.steps
      → SameEngine profiles (newest_engine profiles none before) step

-- A chain passes the check against the saved connections exactly if it is well formed, each connection
-- that a step names is saved, and every restore of what the previous steps produced is into a server
-- of the engine of the newest backup before it.
pub validate_against-RunsOn :
    (p : Pipeline) (profiles : List ConnectionProfile)
    → (validate_against p profiles ≡ none) ↔ RunsOn p profiles
unfolding validate_against
validate_against-RunsOn p profiles = (
  λ h.
      let (steps, h1) = then_check-none (validate_steps p.name p.steps) _ h in
      let (known, engines) = then_check-none (check_profiles profiles 1 p.steps) _ h1 in
      let same = (engines_iff profiles none 1 p.steps).0 engines in
      record {
        formed = (validate_steps-IsWellFormed p.name p.steps).0 steps;
        known = (profiles_iff profiles 1 p.steps).0 known;
        same_engine = λ before step after e. AllSame-at profiles none before step after (rw e same);
      },
  λ v.
      rw
        (
          (validate_steps-IsWellFormed p.name p.steps).1 v.formed,
          (profiles_iff profiles 1 p.steps).1 v.known,
          (engines_iff profiles none 1 p.steps).1 (AllSame-of profiles none p.steps v.same_engine),
        )
        refl,
)
