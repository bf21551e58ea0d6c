-- ===== src/Pipeline/Connections.antt =====
-- The checks of a chain against the saved connections (engine/src/pipeline.rs, `validate_against`).
use mysql_ssh_db_sync.Prelude.{
  ℕ, suc, Bool, true, Option, none, some, List, [], ◌∷◌, if◌then◌else◌, is_some, find, ◌==◌, nat_eq,
}
use mysql_ssh_db_sync.Types.{Engine, ConnectionProfile, engine_eq}
use mysql_ssh_db_sync.Pipeline.{
  is_previous, PipelineStep, backup, restore, profile_id, Pipeline, PipelineError, unknown_profile,
  engine_mismatch, ◌then_check◌, validate_steps,
}

-- `profiles.iter().find(|p| p.id == id)`.
abbrev pub profile_of : List ConnectionProfile → ℕ → Option ConnectionProfile
profile_of profiles id = find (λ p. p.id == id) profiles

unfoldable pub engine_of : List ConnectionProfile → ℕ → Option Engine
engine_of profiles id = elim (profile_of profiles id) [ none ↦ none | some p ↦ some p.engine ]

abbrev pub is_known : List ConnectionProfile → Option ℕ → Bool
is_known profiles none = true
is_known profiles (some id) = is_some (profile_of profiles id)

-- The first loop, from a step number on.
unfoldable pub check_profiles :
    List ConnectionProfile → ℕ → List PipelineStep → Option PipelineError
check_profiles profiles n [] = none
check_profiles profiles n (step ∷ steps) =
    let rest = check_profiles profiles (suc n) steps in
    if is_known profiles (profile_id step) then rest else some (unknown_profile n)

-- The engine of the artifact that a restore of the previous step would read, with the number of its
-- step, against the engine of the restore's own connection.
unfoldable pub mismatch : Option (Engine × ℕ) → Option Engine → ℕ → Option PipelineError
mismatch (some (source_engine, backup_step)) (some dest_engine) n =
    if source_engine == dest_engine
    then none
    else some (engine_mismatch backup_step n source_engine dest_engine)
mismatch _ _ n = none

abbrev pub tagged : Option Engine → ℕ → Option (Engine × ℕ)
tagged none n = none
tagged (some e) n = some (e, n)

-- One round of the second loop: the error, if there is one, and what is carried on.
unfoldable pub check_engine :
    List ConnectionProfile → Option (Engine × ℕ) → ℕ → PipelineStep → Option PipelineError
unfolding engine_of mismatch
check_engine profiles carried n (restore r) =
    if is_previous r.source then mismatch carried (engine_of profiles r.profile_id) n else none
check_engine profiles carried n _ = none

abbrev pub carry :
    List ConnectionProfile → Option (Engine × ℕ) → ℕ → PipelineStep → Option (Engine × ℕ)
carry profiles carried n (backup b) = tagged (engine_of profiles b.profile_id) n
carry profiles carried n _ = carried

unfoldable pub check_engines :
    List ConnectionProfile → Option (Engine × ℕ) → ℕ → List PipelineStep → Option PipelineError
unfolding check_engine
check_engines profiles carried n [] = none
check_engines profiles carried n (step ∷ steps) =
    check_engine profiles carried n step
    then_check check_engines profiles (carry profiles carried n step) (suc n) steps

-- `none` is `Ok(())`.
unfoldable pub validate_against : Pipeline → List ConnectionProfile → Option PipelineError
unfolding validate_steps check_profiles check_engines
validate_against p profiles =
    validate_steps p.name p.steps
    then_check check_profiles profiles 1 p.steps
    then_check check_engines profiles none 1 p.steps
