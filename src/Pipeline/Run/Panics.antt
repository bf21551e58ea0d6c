-- ===== src/Pipeline/Run/Panics.antt =====
-- A run never panics (engine/src/ops.rs, `run_pipeline`): what its `expect` and `unreachable!` rely
-- on is what the check of the chain has proved.
use mysql_ssh_db_sync.Prelude.{
  ℕ, suc, ◌+◌, ◌≡◌, ◌≢◌, refl, inl, inr, true, Option, none, some, List, [], ◌∷◌, ok, err, is_some,
  get_elem?, arith,
}
use mysql_ssh_db_sync.Types.{ConnectionProfile}
use mysql_ssh_db_sync.Backup.{BackupRequest}
use mysql_ssh_db_sync.Mask.{MaskingCoverage}
use mysql_ssh_db_sync.Pipeline.{
  PipelineStep, Pipeline, Seen, nothing_seen, see, check_step, check_order, check_mask, check_name,
  validate_steps,
}
use mysql_ssh_db_sync.Pipeline.Steps.{StepOk, step_iff, then_check-none}
use mysql_ssh_db_sync.Pipeline.Connections.{validate_against}
use mysql_ssh_db_sync.Pipeline.Run.{
  PipelineRunRequest, OpError, panicked, Operations, Machine, Progress, going, stopped,
}
use mysql_ssh_db_sync.Pipeline.Run.Prepare.{lookup}
use mysql_ssh_db_sync.Pipeline.Run.Walk.{
  after_backup, after_restore, after_mask, after_verify, after_push, after_drill, run_step,
  run_steps, run_pipeline, at_start,
}
use mysql_ssh_db_sync.Pipeline.Run.Journal.{Ends, Ends-map, run_steps-Ends}
use mysql_ssh_db_sync.Pipeline.Run.Transitions.{
  Transition, no_profile, no_request, backs_up, no_artifact, no_newest, restores, masks, skips_mask,
  verifies, cannot_verify, pushes, cannot_push, prunes, keeps, cannot_prune, drills,
  run_step-Transition,
}
use mysql_ssh_db_sync.Pipeline.Run.Preparation.{
  run_pipeline-Ends, backup_here, resolve_steps-lookup,
}

-- What has been seen is in the state.
abbrev Has : Seen → Machine → Type 0
Has seen m =
    (seen.backup ≡ true
      → (is_some m.state.artifact ≡ true)
        × (is_some m.state.output_dir ≡ true)
        × (is_some m.state.backup ≡ true)
        × (is_some m.state.source ≡ true))
    × (seen.restore ≡ true → (is_some m.state.target ≡ true) × (is_some m.state.dest ≡ true))

abbrev Sound : Machine → OpError → Type 0
Sound m e = e ≢ panicked

is_there : {A : Type 0} {o : Option A} → is_some o ≡ true → o ≢ none
is_there {o = none} h e = cc
is_there {o = some a} h e = cc

module _ (profiles : List ConnectionProfile) (known : Option BackupRequest) (seen : Seen)
    (m : Machine) where
  step-Has :
      {step : PipelineStep} {p : Progress}
      → Transition profiles known m step p
      → (backup_here (some step) ≡ true → is_some known ≡ true)
      → StepOk seen none step
      → Has seen m
      → Ends (Has (see seen step)) Sound p
  unfolding after_backup after_restore after_mask after_verify after_push after_drill
  step-Has (no_profile step id e missing) k s h = λ x. cc
  step-Has (no_request b missing) k s h = absurd (is_there (k refl) missing)
  step-Has (backs_up b source req (err e)) k s h = λ x. cc
  step-Has (backs_up b source req (ok artifact)) k s h = (λ x. (refl, refl, refl, refl), h.1)
  step-Has (no_artifact r previous missing) k s h = absurd (is_there (h.0 (s previous)).0 missing)
  step-Has (no_newest r e) k s h = λ x. cc
  step-Has (restores r dest artifact (err e) typed left t req n c) k s h = λ x. cc
  step-Has (restores r dest artifact (ok target) typed left t req n c) k s h =
      (h.0, λ x. (refl, refl))
  step-Has (masks rules dest target coverage (err e)) k s h = λ x. cc
  step-Has (masks rules dest target coverage (ok report)) k s h = h
  step-Has (skips_mask rules reason) k s h = h
  step-Has (verifies deep req (err e)) k s h = λ x. cc
  step-Has (verifies deep req (ok report)) k s h = h
  step-Has (cannot_verify deep missing) k s h =
      let (artifact, dir, made, source) = h.0 s.1 in
      let (target, dest) = h.1 s.0 in
      absurd (elim missing [
        | inl e ↦ is_there made e
        | inr (inl e) ↦ is_there source e
        | inr (inr (inl e)) ↦ is_there target e
        | inr (inr (inr e)) ↦ is_there dest e
      ])
  step-Has (pushes artifact (err e)) k s h = λ x. cc
  step-Has (pushes artifact (ok results)) k s h = h
  step-Has (cannot_push missing) k s h = absurd (is_there (h.0 s).0 missing)
  step-Has (prunes policy dir removed) k s h = h
  step-Has (keeps policy reason) k s h = h
  step-Has (cannot_prune policy missing) k s h = absurd (is_there (h.0 s.0).1 missing)
  step-Has (drills d dest req (err e)) k s h = λ x. cc
  step-Has (drills d dest req (ok outcome)) k s h = h

module _ (ops : Operations) (request : PipelineRunRequest) (profiles : List ConnectionProfile)
    (resolved : List (ℕ × BackupRequest)) (coverages : List (ℕ × Option MaskingCoverage)) where
  -- Before a step: the checks hold of the steps ahead, and every backup among them is resolved.
  abbrev Ready : ℕ → List PipelineStep → Machine → Type 0
  Ready i steps m =
      (seen : Seen) × (n : ℕ) × (check_order seen n steps ≡ none)
      × Has seen m
      × ((j : ℕ)
          → backup_here (get_elem? steps j) ≡ true
          → is_some (lookup (i + j) resolved) ≡ true)

  run_step-Ready :
      (m : Machine) (i : ℕ) (step : PipelineStep) (rest : List PipelineStep)
      → Ready i (step ∷ rest) m
      → Ends (Ready (suc i) rest) Sound (run_step ops request profiles resolved coverages m i step)
  unfolding check_order check_mask
  run_step-Ready m i step rest (seen, n, order, has, known) =
      let (this, others) = then_check-none (check_step seen n step) _ order in
      Ends-map (Has (see seen step)) (Ready (suc i) rest) Sound
        (λ m' has'. (see seen step, suc n, others, has', λ j k. moved j (known (suc j) k)))
        (run_step ops request profiles resolved coverages m i step)
        (step-Has profiles (lookup i resolved) seen m
          (run_step-Transition ops request profiles resolved coverages m i step)
          (λ k. at_zero (known 0 k)) ((step_iff seen none n step).0 (this, refl)) has)
    where
      moved :
          (j : ℕ)
          → is_some (lookup (i + suc j) resolved) ≡ true
          → is_some (lookup (suc i + j) resolved) ≡ true
      moved j h = let same : i + suc j ≡ suc i + j = omega arith in rw (← same) h

      at_zero : is_some (lookup (i + 0) resolved) ≡ true → is_some (lookup i resolved) ≡ true
      at_zero h = let same : i + 0 ≡ i = omega arith in rw same at h

  run_steps-Sound :
      (m : Machine) (steps : List PipelineStep)
      → Ready 0 steps m
      → Ends (λ m'. Unit) Sound (run_steps ops request profiles resolved coverages m 0 steps)
  run_steps-Sound m steps h =
      Ends-map (λ m'. (n : ℕ) × Ready n [] m') (λ m'. Unit) Sound (λ m' k. tt)
        (run_steps ops request profiles resolved coverages m 0 steps)
        (run_steps-Ends ops request profiles resolved coverages Ready Sound
          (λ m' i step rest k. (λ x. cc, run_step-Ready m' i step rest k)) m 0 steps h)

-- A chain that passes the check against the connections passes the check of the order of its steps.
validated-order :
    (p : Pipeline) (profiles : List ConnectionProfile)
    → validate_against p profiles ≡ none
    → check_order nothing_seen 1 p.steps ≡ none
unfolding validate_against validate_steps
validated-order p profiles h =
    (then_check-none (check_order nothing_seen 1 p.steps) _
      (then_check-none (check_name p.name p.steps) _
        (then_check-none (validate_steps p.name p.steps) _ h).0).1).0

Sound-at : (p : Progress) → Ends (λ m. Unit) Sound p → (m : Machine) → p ≢ stopped m panicked
Sound-at (going m') h m e = cc
Sound-at (stopped m' e') h m e = h cc

-- Whatever a chain is and whatever the operations answer: a run of it ends with a result or with an
-- error, and never in one of the source's `expect`, `unreachable!` or out-of-range indices.
pub run_pipeline_no_panic :
    (ops : Operations) (request : PipelineRunRequest) (p : Pipeline) (m : Machine)
    → run_pipeline ops request p ≢ stopped m panicked
run_pipeline_no_panic ops request p m =
    Sound-at (run_pipeline ops request p)
      (run_pipeline-Ends ops request p (λ m'. Unit) Sound (λ e k. k)
        (λ profiles resolved coverages valid found.
          run_steps-Sound ops request profiles resolved coverages (at_start ops request) p.steps (
            nothing_seen,
            1,
            validated-order p profiles valid,
            (λ x. cc, λ x. cc),
            resolve_steps-lookup ops request profiles 0 p.steps resolved found,
          )))
      m
