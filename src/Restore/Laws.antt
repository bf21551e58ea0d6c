-- ===== src/Restore/Laws.antt =====
-- What `RestoreRequest::validate` lets through (engine/src/restore/mod.rs).
use mysql_ssh_db_sync.Prelude.{
  ℕ, ◌<◌, ◌≡◌, ◌≢◌, ◌↔◌, refl, ap, Bool, true, false, not, ◌&&◌, Option, none, some, List, [], ◌∷◌,
  Text, is_blank, ==→eq, ==_self, list_eq, nat_eq, All, any-false, any_of_All, arith,
}
use mysql_ssh_db_sync.Types.{
  EnvironmentTag, prod, staging, dev, ArtifactFormat, ConnectionProfile, BackupManifest, engine_eq,
  requires_typed_confirmation, supports_selective_restore,
}
use mysql_ssh_db_sync.Restore.{
  TargetNaming, new_timestamped, drop_and_recreate, into_existing, EngineRestoreOptions, mysql,
  postgres, mongo, engine_of, RestoreRequest, RestoreError, ◌then_check◌, resolve, check_engines,
  check_confirmation, check_only_tables, check_jobs, check_postgres, check_mongo, lacks_selection,
  needs_confirmation, is_typed, is_zero, validate,
}

-- The restore may change data that is already in the database of this name: it drops it, or it
-- writes into it on a production server.
abbrev pub Touches : TargetNaming → EnvironmentTag → Text → Type 0
Touches (new_timestamped prefix) environment name = ⊥
Touches (drop_and_recreate target) environment name = target ≡ name
Touches (into_existing target) prod name = target ≡ name
Touches (into_existing target) _ name = ⊥

abbrev pub CanSelect : Option BackupManifest → Type 0
CanSelect manifest =
    (m : BackupManifest) → manifest ≡ some m → supports_selective_restore m.format ≡ true

-- What the restore tools can do.
abbrev pub ToolsCan : EngineRestoreOptions → Option BackupManifest → Type 0
ToolsCan (mysql o) manifest = Unit
ToolsCan (postgres o) manifest =
    (o.only_tables ≢ [] → CanSelect manifest)
    × ((jobs : ℕ) → o.parallel_jobs ≡ some jobs → (0 < jobs) × CanSelect manifest)
ToolsCan (mongo o) manifest =
    ((jobs : ℕ) → o.parallel_collections ≡ some jobs → 0 < jobs)
    × ((workers : ℕ) → o.insertion_workers ≡ some workers → 0 < workers)
    × All (λ c. is_blank c ≡ false) o.only_collections

pub record IsAllowed (r : RestoreRequest) (profile : ConnectionProfile)
    (manifest : Option BackupManifest) : Type 0 where
  pub same_engine : profile.engine ≡ engine_of r.engine
  pub artifact_engine : (m : BackupManifest) → manifest ≡ some m → m.engine ≡ profile.engine
  pub confirmed :
      (name : Text) → Touches r.naming profile.environment name → r.typed_confirmation ≡ some name
  pub tools : ToolsCan r.engine manifest

then_check-none : (a b : Option RestoreError) → (a then_check b) ≡ none → (a ≡ none) × (b ≡ none)
then_check-none a b h = ground arith

engines_sound :
    (r : RestoreRequest) (profile : ConnectionProfile) (manifest : Option BackupManifest)
    → check_engines r profile manifest ≡ none
    → (profile.engine ≡ engine_of r.engine)
      × ((m : BackupManifest) → manifest ≡ some m → m.engine ≡ profile.engine)
unfolding check_engines
engines_sound r profile manifest h = (
  ground (arith, ==→eq profile.engine (engine_of r.engine)),
  λ m e. ground (arith, ==→eq m.engine profile.engine),
)

engines_complete :
    (r : RestoreRequest) (profile : ConnectionProfile) (manifest : Option BackupManifest)
    → profile.engine ≡ engine_of r.engine
    → ((m : BackupManifest) → manifest ≡ some m → m.engine ≡ profile.engine)
    → check_engines r profile manifest ≡ none
unfolding check_engines
engines_complete r profile none h k = rw (h, ==_self (engine_of r.engine))
engines_complete r profile (some m) h k = rw (k m refl, h, ==_self (engine_of r.engine))

typed_sound : (typed : Option Text) (name : Text) → is_typed typed name ≡ true → typed ≡ some name
typed_sound none name h = cc
typed_sound (some t) name h = ap some (==→eq t name h)

module _ (stamp : ℕ → Text) where
  abbrev is_refused : TargetNaming → EnvironmentTag → Option Text → ℕ → Bool
  is_refused naming environment typed now =
      needs_confirmation naming environment && not (is_typed typed (resolve stamp naming now))

  confirm_sound :
      (naming : TargetNaming) (environment : EnvironmentTag) (typed : Option Text) (now : ℕ)
      → is_refused naming environment typed now ≡ false
      → (name : Text) → Touches naming environment name
      → typed ≡ some name
  unfolding resolve requires_typed_confirmation
  confirm_sound (new_timestamped prefix) environment typed now h name t = absurd t
  confirm_sound (drop_and_recreate target) environment typed now h name t =
      rw (← t) (typed_sound typed target (ground arith))
  confirm_sound (into_existing target) prod typed now h name t =
      rw (← t) (typed_sound typed target (ground arith))
  confirm_sound (into_existing target) staging typed now h name t = absurd t
  confirm_sound (into_existing target) dev typed now h name t = absurd t

  confirm_complete :
      (naming : TargetNaming) (environment : EnvironmentTag) (typed : Option Text) (now : ℕ)
      → ((name : Text) → Touches naming environment name → typed ≡ some name)
      → is_refused naming environment typed now ≡ false
  unfolding resolve requires_typed_confirmation
  confirm_complete (new_timestamped prefix) environment typed now h = ground arith
  confirm_complete (drop_and_recreate target) environment typed now h =
      rw (h target refl, ==_self target)
  confirm_complete (into_existing target) prod typed now h = rw (h target refl, ==_self target)
  confirm_complete (into_existing target) staging typed now h = refl
  confirm_complete (into_existing target) dev typed now h = refl

select_iff :
    (manifest : Option BackupManifest) → (lacks_selection manifest ≡ none) ↔ CanSelect manifest
select_iff none = (λ h m e. cc, λ h. refl)
select_iff (some m) = (λ h n e. ground arith, λ h. rw (h m refl))

nonzero_iff : (o : Option ℕ) → (is_zero o ≡ false) ↔ ((n : ℕ) → o ≡ some n → 0 < n)
nonzero_iff none = (λ h n e. cc, λ h. refl)
nonzero_iff (some m) = (λ h n e. ground arith, λ h. let positive = h m refl in ground arith)

only_tables_iff :
    (tables : List Text) (format : Option ArtifactFormat)
    → (check_only_tables tables format ≡ none) ↔ (tables ≢ [] → format ≡ none)
unfolding check_only_tables
only_tables_iff tables none = (λ h k. refl, λ h. refl)
only_tables_iff [] (some f) = (λ h k. absurd (k refl), λ h. refl)
only_tables_iff (t ∷ ts) (some f) = (λ h k. cc, λ h. cc (h (λ e. cc)))

jobs_iff :
    (jobs : Option ℕ) (format : Option ArtifactFormat)
    → (check_jobs jobs format ≡ none) ↔ ((n : ℕ) → jobs ≡ some n → (0 < n) × (format ≡ none))
unfolding check_jobs
jobs_iff none format = (λ h n e. cc, λ h. refl)
jobs_iff (some m) none = (λ h n e. (ground arith, refl), λ h. let fine = h m refl in ground arith)
jobs_iff (some m) (some f) = (λ h n e. absurd (ground arith), λ h. cc (h m refl).1)

tools_iff :
    (e : EngineRestoreOptions) (manifest : Option BackupManifest)
    → ((check_postgres e manifest ≡ none) × (check_mongo e ≡ none)) ↔ ToolsCan e manifest
unfolding check_postgres check_mongo
tools_iff (mysql o) manifest = (λ h. tt, λ h. (refl, refl))
tools_iff (mongo o) manifest = (
  λ h. (
    (nonzero_iff o.parallel_collections).0 (ground arith),
    (nonzero_iff o.insertion_workers).0 (ground arith),
    any-false is_blank o.only_collections (ground arith),
  ),
  λ h.
      let jobs = (nonzero_iff o.parallel_collections).1 h.0 in
      let workers = (nonzero_iff o.insertion_workers).1 h.1 in
      let named = any_of_All is_blank o.only_collections h.2 in (refl, rw (jobs, workers, named)),
)
tools_iff (postgres o) manifest = (
  λ h.
      let (tables, jobs) =
        then_check-none (check_only_tables o.only_tables (lacks_selection manifest)) _ h.0 in
      (
        λ some_tables.
            (select_iff manifest).0
              ((only_tables_iff o.only_tables (lacks_selection manifest)).0 tables some_tables),
        λ n e.
            let (positive, selects) =
              (jobs_iff o.parallel_jobs (lacks_selection manifest)).0 jobs n e in
            (positive, (select_iff manifest).0 selects),
      ),
  λ h.
      let tables =
        (only_tables_iff o.only_tables (lacks_selection manifest)).1
          (λ k. (select_iff manifest).1 (h.0 k)) in
      let jobs =
        (jobs_iff o.parallel_jobs (lacks_selection manifest)).1
          (λ n e. ((h.1 n e).0, (select_iff manifest).1 (h.1 n e).1)) in
      (rw (tables, jobs), refl),
)

-- A request passes the check exactly if the options, and the artifact where its manifest is at hand,
-- are for the profile's engine, the typed confirmation is the name of the database whose data the
-- restore may change (a database that is dropped, or one on a production server that is written
-- into; no other database needs a confirmation), and the tools can do what is asked: the format of
-- the manifest, if that is at hand, allows a selective or parallel PostgreSQL restore, numbers of
-- jobs and workers are not 0, and no collection name is blank.
pub validate-IsAllowed :
    (stamp : ℕ → Text) (r : RestoreRequest) (profile : ConnectionProfile)
    (manifest : Option BackupManifest) (now : ℕ)
    → (validate stamp r profile manifest now ≡ none) ↔ IsAllowed r profile manifest
unfolding validate
validate-IsAllowed stamp r profile manifest now = (
  λ h.
      let (engines, h1) = then_check-none (check_engines r profile manifest) _ h in
      let (confirmation, h2) = then_check-none (check_confirmation stamp r profile now) _ h1 in
      let (engine, artifact) = engines_sound r profile manifest engines in
      let not_refused : is_refused stamp r.naming profile.environment r.typed_confirmation now
          ≡ false =
        ground arith in
      record {
        same_engine = engine;
        artifact_engine = artifact;
        confirmed =
            confirm_sound stamp r.naming profile.environment r.typed_confirmation now not_refused;
        tools =
            (tools_iff r.engine manifest).0
              (then_check-none (check_postgres r.engine manifest) _ h2);
      },
  λ v.
      let engines = engines_complete r profile manifest v.same_engine v.artifact_engine in
      let not_refused =
        confirm_complete stamp r.naming profile.environment r.typed_confirmation now v.confirmed in
      let (postgres_fine, mongo_fine) = (tools_iff r.engine manifest).1 v.tools in
      rw (engines, not_refused, postgres_fine, mongo_fine),
)
