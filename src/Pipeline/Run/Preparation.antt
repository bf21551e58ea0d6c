-- ===== src/Pipeline/Run/Preparation.antt =====
-- The preparation of a run does not panic (engine/src/ops.rs, `run_pipeline`), and resolves every
-- backup step.
use mysql_ssh_db_sync.Prelude.{
  ok-eq, bind-ok, ℕ, zero, suc, ◌+◌, ◌≡◌, ◌≢◌, refl, subst, inl, inr, Bool, true, false, Option,
  none, some, List, [], ◌∷◌, ◌==◌, list_eq, nat_eq, Result, ok, err, ◌>>=◌, ok_or, get_elem?,
  is_some, All, All-map, Bool-cases, Option-cases, arith,
}
use mysql_ssh_db_sync.Types.{ConnectionProfile}
use mysql_ssh_db_sync.Backup.{BackupRequest}
use mysql_ssh_db_sync.Mask.{MaskRule, MaskingCoverage}
use mysql_ssh_db_sync.Plan.{SyncPlan}
use mysql_ssh_db_sync.Pipeline.{
  PipelineStep, BackupStep, backup, restore, verify, mask, push_offsite, retention, drill, Pipeline,
}
use mysql_ssh_db_sync.Pipeline.Connections.{profile_of, validate_against}
use mysql_ssh_db_sync.Pipeline.Run.{
  Operations, OpError, profile_not_found, sync_plan_not_found, panicked, Answer, PipelineRunRequest,
  Machine,
}
use mysql_ssh_db_sync.Pipeline.Run.Prepare.{
  lookup, last_before, lift, find_profile, selections_of_plan, saved_selections, resolve_step,
  resolve_steps, source_id, cover, plan_masking,
}
use mysql_ssh_db_sync.Pipeline.Run.Walk.{run_steps, run_pipeline, at_start, check_against}
use mysql_ssh_db_sync.Pipeline.Run.Journal.{Ends, with_value-Ends}

abbrev pub NoPanic : {A : Type 0} → Result OpError A → Type 0
NoPanic (ok a) = Unit
NoPanic (err e) = e ≢ panicked

pub bind-NoPanic :
    {A B : Type 0} (r : Result OpError A) (f : A → Result OpError B)
    → NoPanic r
    → ((a : A) → r ≡ ok a → NoPanic (f a))
    → NoPanic (r >>= f)
bind-NoPanic (ok a) f h k = k a refl
bind-NoPanic (err e) f h k = h

pub lift-NoPanic : {A : Type 0} (a : Answer A) → NoPanic (lift a)
lift-NoPanic (ok a) = tt
lift-NoPanic (err e) = λ h. cc

ok_or-NoPanic : {A : Type 0} (o : Option A) (e : OpError) → e ≢ panicked → NoPanic (ok_or o e)
ok_or-NoPanic none e h = h
ok_or-NoPanic (some a) e h = tt

find_profile-NoPanic :
    (profiles : List ConnectionProfile) (id : ℕ) → NoPanic (find_profile profiles id)
find_profile-NoPanic profiles id =
    ok_or-NoPanic (profile_of profiles id) (profile_not_found id) (λ e. cc)

lookup_first :
    {A : Type 0} (i : ℕ) (a : A) (rest : List (ℕ × A))
    → is_some (lookup (i + 0) ((i, a) ∷ rest)) ≡ true
unfolding lookup
lookup_first i a rest = ground arith

lookup_later :
    {A : Type 0} (i j : ℕ) (a : A) (rest : List (ℕ × A))
    → is_some (lookup (suc i + j) rest) ≡ true
    → is_some (lookup (i + suc j) ((i, a) ∷ rest)) ≡ true
unfolding lookup
lookup_later i j a rest h =
    let same : suc i + j ≡ i + suc j = omega arith in
    let k : is_some (lookup (i + suc j) rest) ≡ true = rw (← same) h in ground arith

last_before-All :
    {A : Type 0} (P : ℕ × A → Type 0) (i : ℕ) (entries : List (ℕ × A))
    → All P entries
    → {entry : ℕ × A} → last_before i entries ≡ some entry
    → P entry
unfolding last_before
last_before-All P i [] h e = cc
last_before-All P i ((k, a) ∷ rest) h {entry} e = elim (Option-cases (last_before i rest)) [
  | inr (found, f) ↦
      let same : found ≡ entry = ground arith in subst P same (last_before-All P i rest h.1 f)
  | inl missing ↦ let same : (k, a) ≡ entry = ground arith in subst P same h.0
]

abbrev pub backup_here : Option PipelineStep → Bool
backup_here (some (backup b)) = true
backup_here _ = false

module _ (ops : Operations) (request : PipelineRunRequest) (profiles : List ConnectionProfile) where
  saved_selections-NoPanic :
      (i : ℕ) (b : BackupStep) (id : Option ℕ)
      → NoPanic (saved_selections ops request profiles i b id)
  unfolding saved_selections
  saved_selections-NoPanic i b none = tt
  saved_selections-NoPanic i b (some id) =
      bind-NoPanic
        (lift (ops.get_sync_plan i id) >>= (λ found. ok_or found (sync_plan_not_found id)))
        (selections_of_plan ops request profiles i b)
        (bind-NoPanic (lift (ops.get_sync_plan i id))
          (λ found. ok_or found (sync_plan_not_found id)) (lift-NoPanic (ops.get_sync_plan i id))
          (λ found e. ok_or-NoPanic found (sync_plan_not_found id) (λ e'. cc)))
        (λ plan e. moved plan)
    where
      moved : (plan : SyncPlan) → NoPanic (selections_of_plan ops request profiles i b plan)
      moved plan = elim (Bool-cases (plan.database == b.database)) [
        | inl same ↦ rw same tt
        | inr other ↦ rw other (λ e. cc)
      ]

  resolve_step-NoPanic : (i : ℕ) (b : BackupStep) → NoPanic (resolve_step ops request profiles i b)
  unfolding resolve_step
  resolve_step-NoPanic i b =
      bind-NoPanic (find_profile profiles b.profile_id) _
        (find_profile-NoPanic profiles b.profile_id)
        (λ source e.
          bind-NoPanic (saved_selections ops request profiles i b b.plan_id) _
            (saved_selections-NoPanic i b b.plan_id)
            (λ saved e'.
              bind-NoPanic (lift (ops.resolve_selections i source b.database saved)) _
                (lift-NoPanic _) (λ selections e''. tt)))

  pub resolve_steps-NoPanic :
      (i : ℕ) (steps : List PipelineStep) → NoPanic (resolve_steps ops request profiles i steps)
  unfolding resolve_steps
  resolve_steps-NoPanic i [] = tt
  resolve_steps-NoPanic i (backup b ∷ steps) =
      bind-NoPanic (resolve_step ops request profiles i b) _ (resolve_step-NoPanic i b) (λ req e.
        bind-NoPanic (resolve_steps ops request profiles (suc i) steps) _
          (resolve_steps-NoPanic (suc i) steps) (λ rest e'. tt))
  resolve_steps-NoPanic i (_ ∷ steps) = resolve_steps-NoPanic (suc i) steps

  -- Every key of the map is the number of a backup step, counted from `i`.
  abbrev pub FromBackups : ℕ → List PipelineStep → List (ℕ × BackupRequest) → Type 0
  FromBackups i steps resolved =
      All (λ entry. (j : ℕ) × (entry.0 ≡ i + j) × (backup_here (get_elem? steps j) ≡ true)) resolved

  later :
      (i : ℕ) (step : PipelineStep) (steps : List PipelineStep)
      (resolved : List (ℕ × BackupRequest))
      → FromBackups (suc i) steps resolved
      → FromBackups i (step ∷ steps) resolved
  later i step steps resolved h =
      All-map _
        (λ entry. (j : ℕ) × (entry.0 ≡ i + j) × (backup_here (get_elem? (step ∷ steps) j) ≡ true))
        (λ entry (j, e, k). (suc j, omega (arith, e), k)) resolved h

  -- A step that is no backup adds nothing to the map.
  other :
      (i j : ℕ) (step : PipelineStep) (steps : List PipelineStep)
      (resolved : List (ℕ × BackupRequest))
      → backup_here (get_elem? (step ∷ steps) j) ≡ true
      → backup_here (some step) ≡ false
      → ((j : ℕ)
          → backup_here (get_elem? steps j) ≡ true
          → is_some (lookup (suc i + j) resolved) ≡ true)
      → is_some (lookup (i + j) resolved) ≡ true
  other i zero step steps resolved k plain h = cc
  other i (suc j) step steps resolved k plain h =
      let same : suc i + j ≡ i + suc j = omega arith in rw (← same) (h j k)

  -- What a resolved list starts with, if a backup step does.
  resolved_first :
      (i : ℕ) (b : BackupStep) (steps : List PipelineStep) (resolved : List (ℕ × BackupRequest))
      → resolve_steps ops request profiles i (backup b ∷ steps) ≡ ok resolved
      → (req : BackupRequest) × (rest : List (ℕ × BackupRequest)) × (resolve_steps ops request
            profiles
            (suc i)
            steps
          ≡ ok rest)
        × ((i, req) ∷ rest ≡ resolved)
  unfolding resolve_steps
  resolved_first i b steps resolved h =
      let (req, e, h1) = bind-ok (resolve_step ops request profiles i b) _ h in
      let (rest, e', h2) = bind-ok (resolve_steps ops request profiles (suc i) steps) _ h1 in
      (req, rest, e', ok-eq h2)

  pub resolve_steps-FromBackups :
      (i : ℕ) (steps : List PipelineStep) (resolved : List (ℕ × BackupRequest))
      → resolve_steps ops request profiles i steps ≡ ok resolved
      → FromBackups i steps resolved
  unfolding resolve_steps
  resolve_steps-FromBackups i [] resolved h = subst (FromBackups i []) (ok-eq h) tt
  resolve_steps-FromBackups i (backup b ∷ steps) resolved h =
      let (req, rest, tail, same) = resolved_first i b steps resolved h in
      subst (FromBackups i (backup b ∷ steps)) same (
        (0, omega arith, refl),
        later i (backup b) steps rest (resolve_steps-FromBackups (suc i) steps rest tail),
      )
  resolve_steps-FromBackups i (step ∷ steps) resolved h =
      later i step steps resolved (resolve_steps-FromBackups (suc i) steps resolved h)

  pub resolve_steps-lookup :
      (i : ℕ) (steps : List PipelineStep) (resolved : List (ℕ × BackupRequest))
      → resolve_steps ops request profiles i steps ≡ ok resolved
      → (j : ℕ) → backup_here (get_elem? steps j) ≡ true
      → is_some (lookup (i + j) resolved) ≡ true
  unfolding resolve_steps
  resolve_steps-lookup i [] resolved h j k = cc
  resolve_steps-lookup i (backup b ∷ steps) resolved h zero k =
      let (req, rest, tail, same) = resolved_first i b steps resolved h in
      subst (λ r. is_some (lookup (i + 0) r) ≡ true) same (lookup_first i req rest)
  resolve_steps-lookup i (backup b ∷ steps) resolved h (suc j) k =
      let (req, rest, tail, same) = resolved_first i b steps resolved h in
      subst (λ r. is_some (lookup (i + suc j) r) ≡ true) same
        (lookup_later i j req rest (resolve_steps-lookup (suc i) steps rest tail j k))
  resolve_steps-lookup i (restore r ∷ steps) resolved h j k =
      other i j (restore r) steps resolved k refl (resolve_steps-lookup (suc i) steps resolved h)
  resolve_steps-lookup i (verify deep ∷ steps) resolved h j k =
      other i j (verify deep) steps resolved k refl (resolve_steps-lookup (suc i) steps resolved h)
  resolve_steps-lookup i (mask rules ∷ steps) resolved h j k =
      other i j (mask rules) steps resolved k refl (resolve_steps-lookup (suc i) steps resolved h)
  resolve_steps-lookup i (push_offsite ∷ steps) resolved h j k =
      other i j push_offsite steps resolved k refl (resolve_steps-lookup (suc i) steps resolved h)
  resolve_steps-lookup i (retention policy ∷ steps) resolved h j k =
      other i j (retention policy) steps resolved k refl
        (resolve_steps-lookup (suc i) steps resolved h)
  resolve_steps-lookup i (drill d ∷ steps) resolved h j k =
      other i j (drill d) steps resolved k refl (resolve_steps-lookup (suc i) steps resolved h)

  cover-NoPanic :
      (steps : List PipelineStep) (i : ℕ) (rules : List MaskRule) (entry : ℕ × BackupRequest)
      → backup_here (get_elem? steps entry.0) ≡ true
      → NoPanic (cover ops request profiles steps i rules entry)
  cover-NoPanic steps i rules (index, req) h =
      bind-NoPanic
        (source_id ops request profiles (get_elem? steps index) >>= find_profile profiles) _
        (bind-NoPanic (source_id ops request profiles (get_elem? steps index))
          (find_profile profiles) (found (get_elem? steps index) h)
          (λ id e. find_profile-NoPanic profiles id))
        (λ source e. lift-NoPanic _)
    where
      found :
          (step : Option PipelineStep)
          → backup_here step ≡ true
          → NoPanic (source_id ops request profiles step)
      found (some (backup b)) k = tt
      found none k = cc
      found (some step) k = ground arith

  pub plan_masking-NoPanic :
      (steps : List PipelineStep) (resolved : List (ℕ × BackupRequest)) (i : ℕ)
      (rest : List PipelineStep)
      → All (λ entry. backup_here (get_elem? steps entry.0) ≡ true) resolved
      → NoPanic (plan_masking ops request profiles steps resolved i rest)
  unfolding plan_masking
  plan_masking-NoPanic steps resolved i [] h = tt
  plan_masking-NoPanic steps resolved i (mask rules ∷ rest) h =
      elim (Option-cases (last_before i resolved)) [
        | inl missing ↦ rw (missing, NoPanic) (plan_masking-NoPanic steps resolved (suc i) rest h)
        | inr (entry, found) ↦
            rw (found, NoPanic)
              (bind-NoPanic (cover ops request profiles steps i rules entry) _
                (cover-NoPanic steps i rules entry (last_before-All _ i resolved h found))
                (λ coverage e.
                  bind-NoPanic (plan_masking ops request profiles steps resolved (suc i) rest) _
                    (plan_masking-NoPanic steps resolved (suc i) rest h) (λ others e'. tt)))
      ]
  plan_masking-NoPanic steps resolved i (_ ∷ rest) h =
      plan_masking-NoPanic steps resolved (suc i) rest h

check_against-NoPanic :
    (ops : Operations) (request : PipelineRunRequest) (p : Pipeline)
    (profiles : List ConnectionProfile)
    → NoPanic (check_against ops request p profiles)
check_against-NoPanic ops request p profiles = elim (Option-cases (validate_against p profiles)) [
  | inl fine ↦ rw (fine, NoPanic) tt
  | inr (e, bad) ↦ rw (bad, NoPanic) (λ x. cc)
]

checked :
    (ops : Operations) (request : PipelineRunRequest) (p : Pipeline)
    (profiles : List ConnectionProfile)
    → (lift ops.list_profiles >>= check_against ops request p) ≡ ok profiles
    → validate_against p profiles ≡ none
checked ops request p profiles h =
    let (found, e, k) = bind-ok (lift ops.list_profiles) (check_against ops request p) h in
    elim (Option-cases (validate_against p found)) [
      | inl fine ↦
          let same : found ≡ profiles = ok-eq (rw (fine, check_against) at k) in
          subst (λ x. validate_against p x ≡ none) same fine
      | inr (bad, f) ↦ let wrong = rw (f, check_against) at k in cc
    ]

NoPanic-err :
    {A : Type 0} (r : Result OpError A) (e : OpError) → NoPanic r → r ≡ err e → e ≢ panicked
NoPanic-err (ok a) e h k = cc
NoPanic-err (err e') e h k = λ x. h cc

-- Where a run ends, from where its walk ends: the walk starts only after the check of the chain and
-- the preparation, which do not panic.
pub run_pipeline-Ends {ℓ} :
    (ops : Operations) (request : PipelineRunRequest) (p : Pipeline) (I : Machine → Type ℓ)
    (F : Machine → OpError → Type ℓ)
    → ((e : OpError) → e ≢ panicked → F (at_start ops request) e)
    → ((profiles : List ConnectionProfile) (resolved : List (ℕ × BackupRequest))
          (coverages : List (ℕ × Option MaskingCoverage))
        → validate_against p profiles ≡ none
        → resolve_steps ops request profiles 0 p.steps ≡ ok resolved
        → Ends I F
            (run_steps ops request profiles resolved coverages (at_start ops request) 0 p.steps))
    → Ends I F (run_pipeline ops request p)
unfolding run_pipeline
run_pipeline-Ends ops request p I F f g =
    with_value-Ends I F (at_start ops request)
      (lift ops.list_profiles >>= check_against ops request p) _
      (λ e k. f e (
        NoPanic-err _ e
          (bind-NoPanic (lift ops.list_profiles) (check_against ops request p)
            (lift-NoPanic ops.list_profiles)
            (λ profiles h. check_against-NoPanic ops request p profiles))
          k))
      (λ profiles k.
        with_value-Ends I F (at_start ops request) (resolve_steps ops request profiles 0 p.steps) _
          (λ e k'. f e (NoPanic-err _ e (resolve_steps-NoPanic ops request profiles 0 p.steps) k'))
          (λ resolved k'.
            with_value-Ends I F (at_start ops request)
              (plan_masking ops request profiles p.steps resolved 0 p.steps) _
              (λ e k''. f e (
                NoPanic-err _ e
                  (plan_masking-NoPanic ops request profiles p.steps resolved 0 p.steps
                    (from_backups profiles resolved k'))
                  k''))
              (λ coverages k''.
                g profiles resolved coverages (checked ops request p profiles k) k')))
  where
    from_backups :
        (profiles : List ConnectionProfile) (resolved : List (ℕ × BackupRequest))
        → resolve_steps ops request profiles 0 p.steps ≡ ok resolved
        → All (λ entry. backup_here (get_elem? p.steps entry.0) ≡ true) resolved
    from_backups profiles resolved k =
        All-map _ (λ entry. backup_here (get_elem? p.steps entry.0) ≡ true)
          (λ entry (j, e, h). let same : entry.0 ≡ j = omega (arith, e) in rw same h) resolved
          (resolve_steps-FromBackups ops request profiles 0 p.steps resolved k)
