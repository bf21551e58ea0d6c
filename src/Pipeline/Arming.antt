-- ===== src/Pipeline/Arming.antt =====
-- The permission to run a destructive chain unattended (engine/src/pipeline.rs, engine/src/store.rs).
use mysql_ssh_db_sync.Prelude.{
  ℕ, ◌≡◌, ◌≢◌, ◌⊎◌, inl, inr, refl, ap, sym, ◌∙◌, true, not, Option, none, some, List, [], ◌∷◌,
  Text, text, is_empty, any, is_blank, join, ◌==◌, ==→eq, list_eq, nat_eq, if◌then◌else◌, All, ok,
  lines, IsLine, lines-join, unless-ok, subst, is_blank-trim, Bool-cases, Option-cases, arith,
}
use mysql_ssh_db_sync.Pipeline.{
  PipelineStep, Pipeline, PipelineCreate, PipelineUpdate, targets_of, destructive_signature,
  is_destructive, is_destructive_step, restore, confirmations, is_armed, agrees, validate_steps,
  create_pipeline, patched, update_pipeline, arm_pipeline,
}
use mysql_ssh_db_sync.Pipeline.Spec.{IsWellFormed}
use mysql_ssh_db_sync.Pipeline.Steps.{validate_steps-IsWellFormed}

-- A pipeline that the store's operations have written.
pub data Stored : Pipeline → Type 0 where
  created :
      {p : Pipeline} (input : PipelineCreate) (id now : ℕ)
      → create_pipeline input id now ≡ ok p
      → Stored p
  updated :
      {p q : Pipeline} (patch : PipelineUpdate) (now : ℕ)
      → Stored p
      → update_pipeline p patch now ≡ ok q
      → Stored q
  armed :
      {p q : Pipeline} (typed : Option Text) (now : ℕ)
      → Stored p
      → arm_pipeline p typed now ≡ ok q
      → Stored q

-- An acknowledgment, if there is one, is the signature of the targets that the steps have now.
abbrev pub AckIsCurrent : Pipeline → Type 0
AckIsCurrent p = (p.unattended_ack ≡ none) ⊎ (destructive_signature p.steps ≡ p.unattended_ack)

abbrev IsSound : Pipeline → Type 0
IsSound p = IsWellFormed p.name p.steps × AckIsCurrent p

rename-IsWellFormed :
    {name name' : Text} {steps : List PipelineStep}
    → is_blank name' ≡ is_blank name
    → IsWellFormed name steps
    → IsWellFormed name' steps
rename-IsWellFormed e v = record {
  named = e ∙ v.named;
  some_step = v.some_step;
  in_order = v.in_order;
  distinct_targets = v.distinct_targets;
}

create-IsSound :
    (input : PipelineCreate) (id now : ℕ) {p : Pipeline}
    → create_pipeline input id now ≡ ok p
    → IsSound p
unfolding create_pipeline
create-IsSound input id now h =
    let (valid, same) = unless-ok (validate_steps input.name input.steps) h in
    let formed = (validate_steps-IsWellFormed input.name input.steps).0 valid in
    subst IsSound same (rename-IsWellFormed (is_blank-trim input.name) formed, inl refl)

patched-AckIsCurrent :
    (p : Pipeline) (patch : PipelineUpdate) (now : ℕ)
    → AckIsCurrent p
    → AckIsCurrent (patched p patch now)
patched-AckIsCurrent p patch now k = elim (Option-cases patch.steps) [
  | inl unchanged ↦ rw unchanged k
  | inr (steps, e) ↦ rw e (inl refl)
]

update-IsSound :
    (p : Pipeline) (patch : PipelineUpdate) (now : ℕ) {q : Pipeline}
    → update_pipeline p patch now ≡ ok q
    → AckIsCurrent p
    → IsSound q
unfolding update_pipeline
update-IsSound p patch now h k =
    let r = patched p patch now in
    let (valid, same) = unless-ok (validate_steps r.name r.steps) h in
    subst IsSound same
      ((validate_steps-IsWellFormed r.name r.steps).0 valid, patched-AckIsCurrent p patch now k)

-- What `arm_pipeline` returns.
arm_cases :
    (p : Pipeline) (typed : Option Text) (now : ℕ) {q : Pipeline}
    → arm_pipeline p typed now ≡ ok q
    → (q ≡ record p { unattended_ack = typed; updated_at = now })
      × ((typed ≡ none) ⊎ (destructive_signature p.steps ≡ typed))
unfolding arm_pipeline
arm_cases p none now {q} h = (cc, inl refl)
arm_cases p (some typed) now {q} h = elim (Option-cases (destructive_signature p.steps)) [
  | inl nothing ↦ absurd (ground arith)
  | inr (expected, e) ↦ elim (Bool-cases (typed == expected)) [
    | inl same ↦
        let typed_it : typed ≡ expected = ==→eq typed expected same in
        (ground arith, inr (e ∙ ap some (sym typed_it)))
    | inr other ↦ absurd (ground arith)
  ]
]

arm-IsSound :
    (p : Pipeline) (typed : Option Text) (now : ℕ) {q : Pipeline}
    → arm_pipeline p typed now ≡ ok q
    → IsSound p
    → IsSound q
arm-IsSound p typed now h k =
    let (same, current) = arm_cases p typed now h in subst IsSound (sym same) (k.0, current)

-- Whatever creations, edits and armings a pipeline went through: it is well formed, and if it holds an
-- acknowledgment, that is the signature of the targets that its steps have now.
pub Stored-AckIsCurrent : {p : Pipeline} → Stored p → IsWellFormed p.name p.steps × AckIsCurrent p
Stored-AckIsCurrent (created input id now h) = create-IsSound input id now h
Stored-AckIsCurrent (updated {p = p} patch now s h) =
    update-IsSound p patch now h (Stored-AckIsCurrent s).1
Stored-AckIsCurrent (armed {p = p} typed now s h) =
    arm-IsSound p typed now h (Stored-AckIsCurrent s)

-- A chain drops a database exactly if it has targets.
destructive-targets :
    (steps : List PipelineStep) → any is_destructive_step steps ≡ not (is_empty (targets_of steps))
unfolding targets_of
destructive-targets [] = refl
destructive-targets (restore r ∷ steps) = ground (arith, destructive-targets steps)
destructive-targets (step ∷ steps) = destructive-targets steps

-- What an acknowledgment that agrees with the targets' signature is.
agreed :
    (ack : Option Text) (targets : List Text)
    → agrees ack (if is_empty targets then none else some (join (text "\n") targets)) ≡ true
    → (ack ≡ some (join (text "\n") targets)) × (targets ≢ [])
agreed none [] h = cc
agreed none (t ∷ ts) h = cc
agreed (some ack) [] h = cc
agreed (some ack) (t ∷ ts) h = (ap some (==→eq ack (join (text "\n") (t ∷ ts)) h), λ e. cc)

not_empty : {A : Type 0} (xs : List A) → xs ≢ [] → not (is_empty xs) ≡ true
not_empty [] h = absurd (h refl)
not_empty (x ∷ xs) h = refl

armed_signature :
    (p : Pipeline)
    → is_armed p ≡ true
    → (p.unattended_ack ≡ some (join (text "\n") (targets_of p.steps))) × (targets_of p.steps ≢ [])
unfolding is_armed destructive_signature
armed_signature p h = agreed p.unattended_ack (targets_of p.steps) h

-- An acknowledgment arms one list of targets at most: if it arms two chains whose targets are whole
-- lines (no line end in a name, and no empty name), both drop the same databases in the same order.
pub armed_targets_unique :
    (p q : Pipeline)
    → All IsLine (targets_of p.steps)
    → All IsLine (targets_of q.steps)
    → p.unattended_ack ≡ q.unattended_ack
    → is_armed p ≡ true
    → is_armed q ≡ true
    → targets_of p.steps ≡ targets_of q.steps
armed_targets_unique p q lp lq same hp hq =
    let (ap', np) = armed_signature p hp in
    let (aq, nq) = armed_signature q hq in
    let joined : join (text "\n") (targets_of p.steps) ≡ join (text "\n") (targets_of q.steps) =
      cc in
    sym (lines-join (targets_of p.steps) np lp)
    ∙ ap lines joined
    ∙ lines-join (targets_of q.steps) nq lq

-- An unattended run of an armed chain supplies one confirmation for each database that the chain
-- drops, which is its name, in step order, if the names are whole lines.
pub armed-confirmations :
    (p : Pipeline)
    → All IsLine (targets_of p.steps)
    → is_armed p ≡ true
    → (is_destructive p ≡ true) × (confirmations p ≡ targets_of p.steps)
unfolding confirmations is_destructive
armed-confirmations p l h =
    let (ack, some_target) = armed_signature p h in
    (
      destructive-targets p.steps ∙ not_empty (targets_of p.steps) some_target,
      rw ack (lines-join (targets_of p.steps) some_target l),
    )
