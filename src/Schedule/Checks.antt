-- ===== src/Schedule/Checks.antt =====
-- What the check of a schedule lets through (engine/src/schedule.rs, `validate_parts`).
use mysql_ssh_db_sync.Prelude.{
  ℕ, ◌≡◌, ◌≢◌, ◌↔◌, ◌⊎◌, inl, inr, refl, true, false, ◌||◌, Option, none, some, Text, text, is_some,
  is_blank, ◌==◌, ==→eq, ==_self, ==_iff, list_eq, nat_eq, if◌then◌else◌, ok, Bool-cases,
  Option-cases, Result-cases, arith,
}
use mysql_ssh_db_sync.Types.{engine_eq}
use mysql_ssh_db_sync.Backup
use mysql_ssh_db_sync.Restore
use mysql_ssh_db_sync.Restore.{is_destructive, RestoreRequest}
use mysql_ssh_db_sync.Plan.{SyncPlan}
use mysql_ssh_db_sync.Schedule.{
  ScheduleKind, sync, drill, pipeline, name_required, ScheduleRestore, ScheduleAction,
  ScheduleError, Schedule, ParseUrl, SyncRequest, ◌then_check◌, validate_webhook, check_webhook,
  check_restore, check_kind, validate, backup_request, sync_request,
}

-- A URL that a notification can be sent to.
abbrev pub UsableUrl : ParseUrl → Text → Type 0
UsableUrl parse url =
    (scheme : Text) × (host : Text) × (parse url ≡ ok (scheme, some host))
    × ((scheme ≡ text "http") ⊎ (scheme ≡ text "https"))

-- What an unattended restore may do.
abbrev pub SafeRestore : ScheduleAction → Type 0
SafeRestore action =
    (r : ScheduleRestore)
    → action.restore ≡ some r
    → (is_destructive r.naming ≡ false)
      × (Restore.engine_of r.options ≡ Backup.engine_of action.backup)

-- What belongs to each kind: a plan, a destination, a pipeline.
abbrev pub Shape : ScheduleKind → Option ℕ → Option ℕ → Option ℕ → ScheduleAction → Type 0
Shape pipeline plan dest chain action =
    (chain ≢ none) × (plan ≡ none) × (dest ≡ none) × (action.restore ≡ none)
Shape drill plan dest chain action =
    (chain ≡ none) × (plan ≡ none) × (dest ≢ none) × (action.restore ≡ none)
Shape sync plan dest chain action =
    (chain ≡ none) × (plan ≢ none) × (is_some dest ≡ is_some action.restore) × SafeRestore action

pub record IsComplete (parse : ParseUrl) (s : Schedule) : Type 0 where
  pub named : is_blank s.name ≡ false
  pub webhook : (url : Text) → s.webhook_url ≡ some url → UsableUrl parse url
  pub shape : Shape s.kind s.plan_id s.dest_profile_id s.pipeline_id s.action

then_check-none : (a b : Option ScheduleError) → (a then_check b) ≡ none → (a ≡ none) × (b ≡ none)
then_check-none a b h = ground arith

scheme_ok :
    (scheme : Text)
    → scheme == text "http" || scheme == text "https" ≡ true
    → (scheme ≡ text "http") ⊎ (scheme ≡ text "https")
scheme_ok scheme h = elim (Bool-cases (scheme == text "http")) [
  | inl plain ↦ inl (==→eq scheme (text "http") plain)
  | inr other ↦ inr (==→eq scheme (text "https") (ground arith))
]

scheme_fine :
    (scheme : Text)
    → (scheme ≡ text "http") ⊎ (scheme ≡ text "https")
    → scheme == text "http" || scheme == text "https" ≡ true
scheme_fine scheme (inl e) = let same = (==_iff scheme (text "http")).1 e in ground arith
scheme_fine scheme (inr e) = let same = (==_iff scheme (text "https")).1 e in ground arith

webhook_sound :
    (parse : ParseUrl) (url : Text) → validate_webhook parse url ≡ none → UsableUrl parse url
unfolding validate_webhook
webhook_sound parse url h = elim (Result-cases (parse url)) [
  | inr (e, bad) ↦ absurd (let wrong = rw (bad, validate_webhook) at h in cc)
  | inl ((scheme, none), good) ↦ absurd (let k = rw (good, validate_webhook) at h in ground arith)
  | inl ((scheme, some host), good) ↦
      let k = rw (good, validate_webhook) at h in
      (scheme, host, good, scheme_ok scheme (ground arith))
]

webhook_complete :
    (parse : ParseUrl) (url : Text) → UsableUrl parse url → validate_webhook parse url ≡ none
unfolding validate_webhook
webhook_complete parse url (scheme, host, good, usable) =
    let fine = scheme_fine scheme usable in ground (arith, good, fine)

restore_sound : (action : ScheduleAction) → check_restore action ≡ none → SafeRestore action
unfolding check_restore
restore_sound action h r e =
    let k = rw e at h in
    (
      ground arith,
      ==→eq (Restore.engine_of r.options) (Backup.engine_of action.backup) (ground arith),
    )

restore_complete : (action : ScheduleAction) → SafeRestore action → check_restore action ≡ none
unfolding check_restore
restore_complete action h = elim (Option-cases action.restore) [
  | inl e ↦ rw e refl
  | inr (r, e) ↦
      let (kept, same) = h r e in rw (e, kept, same, ==_self (Backup.engine_of action.backup)) refl
]

kind_sound :
    (kind : ScheduleKind) (plan dest chain : Option ℕ) (action : ScheduleAction)
    → check_kind kind plan dest chain action ≡ none
    → Shape kind plan dest chain action
unfolding check_kind
kind_sound pipeline plan dest chain action h =
    (ground arith, ground arith, ground arith, ground arith)
kind_sound drill plan dest chain action h = (ground arith, ground arith, ground arith, ground arith)
kind_sound sync plan dest chain action h =
    (ground arith, ground arith, ground arith, restore_sound action (ground arith))

kind_complete :
    (kind : ScheduleKind) (plan dest chain : Option ℕ) (action : ScheduleAction)
    → Shape kind plan dest chain action
    → check_kind kind plan dest chain action ≡ none
unfolding check_kind
kind_complete pipeline plan dest chain action h = ground (arith, h.0)
kind_complete drill plan dest chain action h = ground (arith, h.0)
kind_complete sync plan dest chain action h = ground (arith, restore_complete action h.3)

-- A schedule passes the check exactly if it has a name, its webhook, if it has one, is an HTTP or HTTPS
-- URL with a host, and it holds what its kind needs and nothing else: a pipeline schedule its pipeline
-- alone; a drill its connection alone; and a sync its plan, and both or neither of a destination and
-- a way to restore, which drops no database and is for the engine that is backed up.
pub validate-IsComplete :
    (parse : ParseUrl) (s : Schedule) → (validate parse s ≡ none) ↔ IsComplete parse s
unfolding validate check_webhook
validate-IsComplete parse s = (
  λ h.
      let (name, h1) = then_check-none (if is_blank s.name then some name_required else none) _ h in
      let (webhook, kind) = then_check-none (check_webhook parse s.webhook_url) _ h1 in
      record {
        named = ground arith;
        webhook = λ url e. webhook_sound parse url (url_checked s.webhook_url url webhook e);
        shape = kind_sound s.kind s.plan_id s.dest_profile_id s.pipeline_id s.action kind;
      },
  λ v.
      let webhook = url_complete s.webhook_url v.webhook in
      rw
        (
          v.named,
          webhook,
          kind_complete s.kind s.plan_id s.dest_profile_id s.pipeline_id s.action v.shape,
        )
        refl,
)
  where
    url_checked :
        (o : Option Text) (url : Text)
        → check_webhook parse o ≡ none
        → o ≡ some url
        → validate_webhook parse url ≡ none
    url_checked none url h e = cc
    url_checked (some u) url h e = cc

    url_complete :
        (o : Option Text)
        → ((url : Text) → o ≡ some url → UsableUrl parse url)
        → check_webhook parse o ≡ none
    url_complete none h = refl
    url_complete (some u) h = webhook_complete parse u (h u refl)

-- The request that a valid schedule makes of a sync drops no database, supplies no confirmation, and
-- masks what the plan masks.
pub sync_request_safe :
    (parse : ParseUrl) (s : Schedule) (plan : SyncPlan) (req : SyncRequest)
    → s.kind ≡ sync
    → validate parse s ≡ none
    → sync_request s plan ≡ some req
    → (is_destructive req.naming ≡ false)
      × (req.typed_confirmation ≡ none)
      × (req.masking ≡ plan.masking)
      × (Restore.engine_of req.restore ≡ Backup.engine_of req.backup.engine)
unfolding sync_request backup_request
sync_request_safe parse s plan req k v h = elim (Option-cases s.action.restore) [
  | inl missing ↦ absurd (ground arith)
  | inr (r, e) ↦
      let shape : Shape sync s.plan_id s.dest_profile_id s.pipeline_id s.action =
        rw k at ((validate-IsComplete parse s).0 v).shape in
      let (kept, same) = shape.3 r e in (ground arith, ground arith, ground arith, ground arith)
]
