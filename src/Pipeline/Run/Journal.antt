-- ===== src/Pipeline/Run/Journal.antt =====
-- What a run's calls are, read off its log (engine/src/ops.rs, `run_pipeline`).
use mysql_ssh_db_sync.Prelude.{
  or_else, ℕ, suc, ◌≡◌, refl, Bool, true, false, Option, none, some, List, [], ◌∷◌, Text, all,
  get_elem?, if◌then◌else◌, Result, ok, err,
}
use mysql_ssh_db_sync.Types.{ConnectionProfile}
use mysql_ssh_db_sync.Backup.{BackupRequest}
use mysql_ssh_db_sync.Restore.{is_destructive}
use mysql_ssh_db_sync.Mask.{MaskingCoverage}
use mysql_ssh_db_sync.Verify.{VerificationReport}
use mysql_ssh_db_sync.Pipeline.{PipelineStep}
use mysql_ssh_db_sync.Pipeline.Run.{
  PipelineRunRequest, PushResult, succeeded, OpError, cancelled, Event, backed_up, restored,
  verified, pushed, pruned, drilled, Operations, none_or_passed, Machine, Progress, going, stopped,
}
use mysql_ssh_db_sync.Pipeline.Run.Walk.{with_value, run_step, run_steps}

-- The report that stands after some calls: the last verification's, or else the first drill's.
abbrev pub last_report : List Event → Option VerificationReport
last_report [] = none
last_report (verified req (ok report) ∷ before) = some report
last_report (drilled dest req (ok outcome) ∷ before) =
    or_else (last_report before) (some outcome.report)
last_report (_ ∷ before) = last_report before

abbrev pub last_push : List Event → List PushResult
last_push [] = []
last_push (pushed artifact (ok results) ∷ before) = results
last_push (_ ∷ before) = last_push before

abbrev pub last_artifact : List Event → Option Text
last_artifact [] = none
last_artifact (backed_up source req (ok artifact) ∷ before) = some artifact
last_artifact (_ ∷ before) = last_artifact before

abbrev pub last_output_dir : List Event → Option Text
last_output_dir [] = none
last_output_dir (backed_up source req (ok artifact) ∷ before) = some req.common.output_dir
last_output_dir (_ ∷ before) = last_output_dir before

-- How many restores that drop a database were asked for.
abbrev pub destructive_calls : List Event → ℕ
destructive_calls [] = 0
destructive_calls (restored dest req answer ∷ before) =
    if is_destructive req.naming then suc (destructive_calls before) else destructive_calls before
destructive_calls (_ ∷ before) = destructive_calls before

-- What the calls before it must have done for a call to be made.
abbrev pub Sanctioned : List Text → List Event → Event → Type 0
Sanctioned typed before (restored dest req answer) =
    req.typed_confirmation
    ≡ (if is_destructive req.naming then get_elem? typed (destructive_calls before) else none)
Sanctioned typed before (pushed artifact answer) = last_artifact before ≡ some artifact
Sanctioned typed before (pruned dir policy removed) =
    (none_or_passed (last_report before) ≡ true)
    × (all succeeded (last_push before) ≡ true)
    × (last_output_dir before ≡ some dir)
Sanctioned typed before _ = Unit

-- Of each event and those before it.
abbrev pub EachAfter {ℓ} : (List Event → Event → Type ℓ) → List Event → Type ℓ
EachAfter P [] = Unit
EachAfter P (e ∷ before) = P before e × EachAfter P before

abbrev pub log_of : Progress → List Event
log_of (going m) = m.log
log_of (stopped m e) = m.log

-- An invariant of where a walk or a step ends.
abbrev pub Ends {ℓ} : (Machine → Type ℓ) → (Machine → OpError → Type ℓ) → Progress → Type ℓ
Ends I F (going m) = I m
Ends I F (stopped m e) = F m e

-- Once `with_value` has its value.
pub with_value-Ends {ℓ} :
    {A : Type 0} (I : Machine → Type ℓ) (F : Machine → OpError → Type ℓ) (m : Machine)
    (r : Result OpError A) (k : A → Progress)
    → ((e : OpError) → r ≡ err e → F m e)
    → ((a : A) → r ≡ ok a → Ends I F (k a))
    → Ends I F (with_value m r k)
with_value-Ends I F m (ok a) k f g = g a refl
with_value-Ends I F m (err e) k f g = f e refl

-- A consequence of the invariant where the walk ends.
pub Ends-map {ℓ} :
    (I J : Machine → Type ℓ) (F : Machine → OpError → Type ℓ)
    → ((m : Machine) → I m → J m)
    → (p : Progress) → Ends I F p
    → Ends J F p
Ends-map I J F f (going m) h = f m h
Ends-map I J F f (stopped m e) h = h

module _ (ops : Operations) (request : PipelineRunRequest) (profiles : List ConnectionProfile)
    (resolved : List (ℕ × BackupRequest)) (coverages : List (ℕ × Option MaskingCoverage)) where
  -- Induction over the walk, with an invariant of the machine, the index and the steps ahead.
  pub run_steps-Ends {ℓ} :
      (I : ℕ → List PipelineStep → Machine → Type ℓ) (F : Machine → OpError → Type ℓ)
      → ((m : Machine) (i : ℕ) (step : PipelineStep) (rest : List PipelineStep)
          → I i (step ∷ rest) m
          → F m cancelled
            × Ends (I (suc i) rest) F (run_step ops request profiles resolved coverages m i step))
      → (m : Machine) (i : ℕ) (steps : List PipelineStep) → I i steps m
      → Ends
          (λ m'. (n : ℕ) × I n [] m')
          F
          (run_steps ops request profiles resolved coverages m i steps)
  unfolding run_steps
  run_steps-Ends I F each m i [] h = (i, h)
  run_steps-Ends I F each m i (step ∷ steps) h =
      onward (ops.is_cancelled m.log) (run_step ops request profiles resolved coverages m i step)
        (λ m' k. run_steps-Ends I F each m' (suc i) steps k) (each m i step steps h)
    where
      onward :
          (stop : Bool) (p : Progress)
          → ((m' : Machine)
              → I (suc i) steps m'
              → Ends
                  (λ m''. (n : ℕ) × I n [] m'')
                  F
                  (run_steps ops request profiles resolved coverages m' (suc i) steps))
          → F m cancelled × Ends (I (suc i) steps) F p
          → Ends
              (λ m'. (n : ℕ) × I n [] m')
              F
              (if stop then stopped m cancelled else elim p [
                | stopped m' e ↦ stopped m' e
                | going m' ↦ run_steps ops request profiles resolved coverages m' (suc i) steps
              ])
      onward true p further k = k.0
      onward false (stopped m' e) further k = k.1
      onward false (going m') further k = further m' k.1
