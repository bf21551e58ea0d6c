-- ===== src/Pipeline/Steps.antt =====
-- `validate_steps` accepts the well-formed chains (engine/src/pipeline.rs).
use mysql_ssh_db_sync.Prelude.{
  ℕ, suc, ◌≡◌, ◌≢◌, ◌↔◌, refl, ap, sym, ◌∙◌, Bool, true, false, not, ◌&&◌, ◌||◌, Option, none, some,
  List, [], ◌∷◌, ◌++◌, Text, is_blank, any, contains, ◌==◌, ==_false, ==_of_ne, list_eq, nat_eq,
  All, All-map, All-both, All-true, arith,
}
use mysql_ssh_db_sync.Mask.{MaskRule}
use mysql_ssh_db_sync.Restore.{TargetNaming, new_timestamped, drop_and_recreate, into_existing}
use mysql_ssh_db_sync.Retention.{is_enabled}
use mysql_ssh_db_sync.Pipeline.{
  ArtifactSource, previous_step, newest_in_directory, file, is_previous, PipelineStep, backup,
  restore, verify, mask, push_offsite, retention, drill, targets_of, PipelineError, Seen,
  nothing_seen, see, check_step, check_mask, last_after, ◌then_check◌, check_order, check_masking,
  check_targets, check_name, validate_steps,
}
use mysql_ssh_db_sync.Pipeline.Spec.{
  is_backup, is_restore, last_restore, Allowed, Distinct, IsWellFormed,
}

pub then_check-none :
    (a b : Option PipelineError) → (a then_check b) ≡ none → (a ≡ none) × (b ≡ none)
then_check-none a b h = ground arith

-- What a step needs of the loops' variables.
abbrev pub StepOk : Seen → Option TargetNaming → PipelineStep → Type 0
StepOk seen last (backup b) = is_blank b.database ≡ false
StepOk seen last (restore r) = r.source ≡ previous_step → seen.backup ≡ true
StepOk seen last (verify deep) = (seen.restore ≡ true) × (seen.backup ≡ true)
StepOk seen last (mask rules) =
    (seen.restore ≡ true) × (rules ≢ []) × ((name : Text) → last ≢ some (into_existing name))
StepOk seen last push_offsite = seen.backup ≡ true
StepOk seen last (retention policy) = (seen.backup ≡ true) × (is_enabled policy ≡ true)
StepOk seen last (drill d) = Unit

mask_iff :
    (last : Option TargetNaming) (n : ℕ) (rules : List MaskRule)
    → (check_mask last n (mask rules) ≡ none) ↔ ((name : Text) → last ≢ some (into_existing name))
unfolding check_mask
mask_iff none n rules = (λ h name e. cc, λ h. refl)
mask_iff (some (new_timestamped prefix)) n rules = (λ h name e. cc, λ h. refl)
mask_iff (some (drop_and_recreate target)) n rules = (λ h name e. cc, λ h. refl)
mask_iff (some (into_existing target)) n rules = (λ h name e. cc, λ h. absurd (h target refl))

restore_ok :
    (source : ArtifactSource) (backed_up : Bool)
    → (source ≡ previous_step → backed_up ≡ true)
    → is_previous source && not backed_up ≡ false
restore_ok previous_step backed_up h = rw (h refl)
restore_ok (newest_in_directory dir) backed_up h = refl
restore_ok (file path) backed_up h = refl

check_mask_other :
    (last : Option TargetNaming) (n : ℕ) (step : PipelineStep)
    → ((rules : List MaskRule) → step ≢ mask rules)
    → check_mask last n step ≡ none
unfolding check_mask
check_mask_other last n (mask rules) h = absurd (h rules refl)
check_mask_other last n step h = ground arith

pub step_iff :
    (seen : Seen) (last : Option TargetNaming) (n : ℕ) (step : PipelineStep)
    → ((check_step seen n step ≡ none) × (check_mask last n step ≡ none)) ↔ StepOk seen last step
unfolding check_step
step_iff seen last n (backup b) =
    (λ h. ground arith, λ h. (rw h, check_mask_other last n _ (λ rules e. cc)))
step_iff seen last n (restore r) = (
  λ h e. ground arith,
  λ h. (rw (restore_ok r.source seen.backup h), check_mask_other last n _ (λ rules e. cc)),
)
step_iff seen last n (verify deep) = (
  λ h. (ground arith, ground arith),
  λ h. (ground arith, check_mask_other last n _ (λ rules e. cc)),
)
step_iff seen last n (mask []) = (λ h. absurd (ground arith), λ h. absurd (h.1 refl))
step_iff seen last n (mask (rule ∷ rules)) = (
  λ h. (ground arith, λ e. cc, (mask_iff last n (rule ∷ rules)).0 h.1),
  λ h. (rw h.0, (mask_iff last n (rule ∷ rules)).1 h.2),
)
step_iff seen last n push_offsite =
    (λ h. ground arith, λ h. (rw h, check_mask_other last n _ (λ rules e. cc)))
step_iff seen last n (retention policy) = (
  λ h. (ground arith, ground arith),
  λ h. (rw (h.0, h.1), check_mask_other last n _ (λ rules e. cc)),
)
step_iff seen last n (drill d) = (λ h. tt, λ h. (refl, check_mask_other last n _ (λ rules e. cc)))

-- The steps of a list, each against the loops' variables as they stand there.
abbrev AllOk : Seen → Option TargetNaming → List PipelineStep → Type 0
AllOk seen last [] = Unit
AllOk seen last (step ∷ steps) =
    StepOk seen last step × AllOk (see seen step) (last_after last step) steps

loops_iff :
    (seen : Seen) (last : Option TargetNaming) (n : ℕ) (steps : List PipelineStep)
    → ((check_order seen n steps ≡ none) × (check_masking last n steps ≡ none))
      ↔ AllOk seen last steps
unfolding check_order check_masking
loops_iff seen last n [] = (λ h. tt, λ h. (refl, refl))
loops_iff seen last n (step ∷ steps) = (
  λ h.
      let (order, orders) = then_check-none (check_step seen n step) _ h.0 in
      let (masking, maskings) = then_check-none (check_mask last n step) _ h.1 in
      (
        (step_iff seen last n step).0 (order, masking),
        (loops_iff (see seen step) (last_after last step) (suc n) steps).0 (orders, maskings),
      ),
  λ h.
      let (order, masking) = (step_iff seen last n step).1 h.0 in
      let (orders, maskings) =
        (loops_iff (see seen step) (last_after last step) (suc n) steps).1 h.1 in
      (rw order orders, rw masking maskings),
)

-- The loops' variables after some steps.
see_all : Seen → List PipelineStep → Seen
see_all seen [] = seen
see_all seen (step ∷ steps) = see_all (see seen step) steps

AllOk-at :
    (seen : Seen) (last : Option TargetNaming) (before : List PipelineStep) (step : PipelineStep)
    (after : List PipelineStep)
    → AllOk seen last (before ++ step ∷ after)
    → StepOk (see_all seen before) (last_restore before last) step
unfolding see_all
AllOk-at seen last [] step after h = h.0
AllOk-at seen last (s ∷ before) step after h =
    AllOk-at (see seen s) (last_after last s) before step after h.1

AllOk-of :
    (seen : Seen) (last : Option TargetNaming) (steps : List PipelineStep)
    → ((before : List PipelineStep) (step : PipelineStep) (after : List PipelineStep)
        → before ++ step ∷ after ≡ steps
        → StepOk (see_all seen before) (last_restore before last) step)
    → AllOk seen last steps
unfolding see_all
AllOk-of seen last [] h = tt
AllOk-of seen last (s ∷ steps) h = (
  h [] s steps refl,
  AllOk-of (see seen s) (last_after last s) steps
      (λ before step after e. h (s ∷ before) step after (ap (◌∷◌ s) e)),
)

see_all-backup :
    (seen : Seen) (steps : List PipelineStep)
    → (see_all seen steps).backup ≡ (seen.backup || any is_backup steps)
unfolding see_all
see_all-backup seen [] = ground arith
see_all-backup seen (step ∷ steps) = ground (arith, see_all-backup (see seen step) steps)

see_all-restore :
    (seen : Seen) (steps : List PipelineStep)
    → (see_all seen steps).restore ≡ (seen.restore || any is_restore steps)
unfolding see_all
see_all-restore seen [] = ground arith
see_all-restore seen (step ∷ steps) = ground (arith, see_all-restore (see seen step) steps)

Allowed-iff :
    (before : List PipelineStep) (step : PipelineStep)
    → StepOk (see_all nothing_seen before) (last_restore before none) step ↔ Allowed before step
Allowed-iff before step = both step
  where
    b : (see_all nothing_seen before).backup ≡ any is_backup before
    b = see_all-backup nothing_seen before

    r : (see_all nothing_seen before).restore ≡ any is_restore before
    r = see_all-restore nothing_seen before

    both :
        (s : PipelineStep)
        → StepOk (see_all nothing_seen before) (last_restore before none) s ↔ Allowed before s
    both (backup x) = (λ h. h, λ h. h)
    both (restore x) = (λ h e. sym b ∙ h e, λ h e. b ∙ h e)
    both (verify deep) = (λ h. (sym r ∙ h.0, sym b ∙ h.1), λ h. (r ∙ h.0, b ∙ h.1))
    both (mask rules) = (λ h. (sym r ∙ h.0, h.1, h.2), λ h. (r ∙ h.0, h.1, h.2))
    both push_offsite = (λ h. sym b ∙ h, λ h. b ∙ h)
    both (retention policy) = (λ h. (sym b ∙ h.0, h.1), λ h. (b ∙ h.0, h.1))
    both (drill d) = (λ h. h, λ h. h)

targets_iff :
    (seen ts : List Text)
    → (check_targets seen ts ≡ none) ↔ (All (λ t. contains seen t ≡ false) ts × Distinct ts)
unfolding check_targets
targets_iff seen [] = (λ h. (tt, tt), λ h. refl)
targets_iff seen (t ∷ ts) = (
  λ h.
      let fresh : contains seen t ≡ false = ground arith in
      let (away, distinct) = (targets_iff (t ∷ seen) ts).0 (rw fresh at h) in
      (
        (fresh, All-map _ (λ u. contains seen u ≡ false) (λ u k. ground arith) ts away),
        (
          All-map _ (λ u. u ≢ t)
              (λ u k e. let other : (t == u) ≡ false = ground arith in ==_false t u other (sym e))
              ts away,
          distinct,
        ),
      ),
  λ h. rw h.0.0 (
      (targets_iff (t ∷ seen) ts).1 (
        All-both (λ u. contains seen u ≡ false) (λ u. u ≢ t) (λ u. contains (t ∷ seen) u ≡ false)
            (λ u k ne. rw (==_of_ne t u (λ e. ne (sym e))) k) ts h.0.1 h.1.0,
        h.1.1,
      )),
)

name_iff :
    (name : Text) (steps : List PipelineStep)
    → (check_name name steps ≡ none) ↔ ((is_blank name ≡ false) × (steps ≢ []))
unfolding check_name
name_iff name [] = (λ h. absurd (ground arith), λ h. absurd (h.1 refl))
name_iff name (step ∷ steps) = (λ h. (ground arith, λ e. cc), λ h. rw h.0)

-- A chain is accepted exactly if it is well formed: it has a name and a step; every backup names a
-- database; a restore of what the chain produced, a copy off-site and a retention follow a backup; a
-- verification follows a backup and a restore; a masking follows a restore, has a rule, and the last
-- restore before it does not write into an existing database; a retention policy has a rule; and no
-- two steps drop the same database.
pub validate_steps-IsWellFormed :
    (name : Text) (steps : List PipelineStep)
    → (validate_steps name steps ≡ none) ↔ IsWellFormed name steps
unfolding validate_steps
validate_steps-IsWellFormed name steps = (
  λ h.
      let (naming, h1) = then_check-none (check_name name steps) _ h in
      let (order, h2) = then_check-none (check_order nothing_seen 1 steps) _ h1 in
      let (masking, targets) = then_check-none (check_masking none 1 steps) _ h2 in
      let (named, some_step) = (name_iff name steps).0 naming in
      let ok = (loops_iff nothing_seen none 1 steps).0 (order, masking) in
      record {
        named = named;
        some_step = some_step;
        in_order = λ before step after e.
            (Allowed-iff before step).0 (AllOk-at nothing_seen none before step after (rw e ok));
        distinct_targets = ((targets_iff [] (targets_of steps)).0 targets).1;
      },
  λ v.
      let loops = (loops_iff nothing_seen none 1 steps).1 (
        AllOk-of nothing_seen none steps
          (λ before step after e. (Allowed-iff before step).1 (v.in_order before step after e))) in
      let targets = (targets_iff [] (targets_of steps)).1 (
        All-true (λ t. contains [] t ≡ false) (λ t. refl) (targets_of steps),
        v.distinct_targets,
      ) in
      rw ((name_iff name steps).1 (v.named, v.some_step), loops.0, loops.1, targets),
)
