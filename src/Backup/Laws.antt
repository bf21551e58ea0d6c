-- ===== src/Backup/Laws.antt =====
-- What `BackupRequest::validate` lets through (engine/src/backup/mod.rs).
use mysql_ssh_db_sync.Prelude.{
  ℕ, ◌<◌, ◌≡◌, ◌≢◌, ◌↔◌, ◌⊎◌, inl, inr, refl, Bool, true, false, not, Option, none, some, List,
  Text, is_some, is_blank, ◌==◌, ==→eq, ==_self, All, All-map, Within, find-none, find_of_All,
  filter-ne-nil, filter_of_Within, Option-cases, All-both, arith,
}
use mysql_ssh_db_sync.Types.{ConnectionProfile, engine_eq, sql_gz, mydumper_dir, mongo_archive}
use mysql_ssh_db_sync.Backup.{
  schema_and_data, schema_only, exclude, mode_eq, TableSelection, directory, EngineBackupOptions,
  mysql, postgres, mongo, engine_of, artifact_format, BackupRequest, BackupError, ◌then_check◌,
  CommonBackupOptions, check_engine, check_common, check_parallel, check_mydumper, check_encrypt,
  check_filters, check_mongo, reject, filter_is_idle, is_structure_only, has_filter,
  filter_without_data, mongo_structure_only, mongo_filter, validate,
}

-- What `pg_dump -j` needs.
abbrev pub ParallelOk : EngineBackupOptions → Type 0
ParallelOk (postgres o) =
    (jobs : ℕ) → o.parallel_jobs ≡ some jobs → (o.format ≡ directory) × (0 < jobs)
ParallelOk _ = Unit

-- A collection is taken whole or not at all.
abbrev pub WholeCollections : EngineBackupOptions → List TableSelection → Type 0
WholeCollections (mongo o) selections =
    All (λ s. (s.mode ≢ schema_only) × (s.where_filter ≡ none)) selections
WholeCollections _ selections = Unit

-- What the dump tools can do, and what the manifest will truthfully describe.
pub record IsRunnable (r : BackupRequest) (profile : ConnectionProfile) : Type 0 where
  pub same_engine : profile.engine ≡ engine_of r.engine
  pub named : is_blank r.common.database ≡ false
  pub included : (s : TableSelection) × Within s r.common.selections × (s.mode ≢ exclude)
  pub one_file : artifact_format r.engine ≢ mydumper_dir
  pub one_stream :
      r.common.encrypt ≡ true
      → (artifact_format r.engine ≡ sql_gz) ⊎ (artifact_format r.engine ≡ mongo_archive)
  pub parallel : ParallelOk r.engine
  pub filtered :
      All (λ s. is_some s.where_filter ≡ true → s.mode ≡ schema_and_data) r.common.selections
  pub whole : WholeCollections r.engine r.common.selections

then_check-none : (a b : Option BackupError) → (a then_check b) ≡ none → (a ≡ none) × (b ≡ none)
then_check-none a b h = ground arith

parallel_iff : (e : EngineBackupOptions) → (check_parallel e ≡ none) ↔ ParallelOk e
unfolding check_parallel
parallel_iff (mysql o) = (λ h. tt, λ h. refl)
parallel_iff (mongo o) = (λ h. tt, λ h. refl)
parallel_iff (postgres o) = (
  λ h jobs e. ground arith,
  λ h. elim (Option-cases o.parallel_jobs) [
    | inl e ↦ rw e
    | inr (jobs, e) ↦ let fine = h jobs e in rw e (ground arith)
  ],
)

streams :
    (b : Bool) (e : EngineBackupOptions)
    → check_mydumper e ≡ none
    → check_encrypt b e ≡ none
    → (artifact_format e ≢ mydumper_dir)
      × (b ≡ true → (artifact_format e ≡ sql_gz) ⊎ (artifact_format e ≡ mongo_archive))
unfolding check_mydumper check_encrypt artifact_format
streams b (mysql o) h k = (ground arith, λ t. ground arith)
streams b (postgres o) h k = (ground arith, λ t. ground arith)
streams b (mongo o) h k = (ground arith, λ t. ground arith)

of_streams :
    (b : Bool) (e : EngineBackupOptions)
    → artifact_format e ≢ mydumper_dir
    → (b ≡ true → (artifact_format e ≡ sql_gz) ⊎ (artifact_format e ≡ mongo_archive))
    → (check_mydumper e ≡ none) × (check_encrypt b e ≡ none)
unfolding check_mydumper check_encrypt artifact_format
of_streams b (mysql o) h k = (ground arith, ground arith)
of_streams b (postgres o) h k = (ground arith, ground arith)
of_streams b (mongo o) h k = (ground arith, ground arith)

reject_iff :
    (test : TableSelection → Bool) (error : Text → BackupError) (xs : List TableSelection)
    → (reject test error xs ≡ none) ↔ All (λ s. test s ≡ false) xs
reject_iff test error xs = (
  λ h. find-none test xs (ground arith),
  λ h. let nothing = find_of_All test xs h in ground arith,
)

filters_iff :
    (xs : List TableSelection)
    → (check_filters xs ≡ none)
      ↔ All (λ s. is_some s.where_filter ≡ true → s.mode ≡ schema_and_data) xs
unfolding check_filters
filters_iff xs = (
  λ h.
      All-map (λ s. filter_is_idle s ≡ false) _ (λ s k f. ground arith) xs
        ((reject_iff filter_is_idle filter_without_data xs).0 h),
  λ h.
      (reject_iff filter_is_idle filter_without_data xs).1
        (All-map _ (λ s. filter_is_idle s ≡ false) (λ s k. ground (arith, k)) xs h),
)

mongo_iff :
    (e : EngineBackupOptions) (xs : List TableSelection)
    → (check_mongo e xs ≡ none) ↔ WholeCollections e xs
unfolding check_mongo
mongo_iff (mysql o) xs = (λ h. tt, λ h. refl)
mongo_iff (postgres o) xs = (λ h. tt, λ h. refl)
mongo_iff (mongo o) xs = (
  λ h.
      let (no_structure, no_filter) = then_check-none _ _ h in
      All-both _ _ (λ s. (s.mode ≢ schema_only) × (s.where_filter ≡ none))
        (λ s a b. (ground arith, ground arith)) xs
        ((reject_iff is_structure_only mongo_structure_only xs).0 no_structure)
        ((reject_iff has_filter mongo_filter xs).0 no_filter),
  λ h.
      let no_structure =
        (reject_iff is_structure_only mongo_structure_only xs).1
          (All-map _ (λ s. is_structure_only s ≡ false) (λ s k. ground arith) xs h) in
      let no_filter =
        (reject_iff has_filter mongo_filter xs).1
          (All-map _ (λ s. has_filter s ≡ false) (λ s k. ground arith) xs h) in
      rw (no_structure, no_filter),
)

abbrev SomeIncluded : List TableSelection → Type 0
SomeIncluded xs = (s : TableSelection) × Within s xs × (s.mode ≢ exclude)

common_iff :
    (o : CommonBackupOptions)
    → check_common o ≡ none
    → (is_blank o.database ≡ false) × SomeIncluded o.selections
unfolding check_common
common_iff o h =
    let (s, w, k) = filter-ne-nil (λ s. not (s.mode == exclude)) o.selections (ground arith) in
    (ground arith, (s, w, ground arith))

of_common :
    (o : CommonBackupOptions)
    → is_blank o.database ≡ false
    → SomeIncluded o.selections
    → check_common o ≡ none
unfolding check_common
of_common o named (s, w, k) =
    let some_left = filter_of_Within (λ t. not (t.mode == exclude)) o.selections w (ground arith) in
    rw (named, some_left)

engine_sound :
    (r : BackupRequest) (profile : ConnectionProfile)
    → check_engine r profile ≡ none
    → profile.engine ≡ engine_of r.engine
unfolding check_engine
engine_sound r profile h = ground (arith, ==→eq profile.engine (engine_of r.engine))

engine_complete :
    (r : BackupRequest) (profile : ConnectionProfile)
    → profile.engine ≡ engine_of r.engine
    → check_engine r profile ≡ none
unfolding check_engine
engine_complete r profile h = rw (h, ==_self (engine_of r.engine))

-- A request passes the check exactly if the tools can run it and the manifest will describe what
-- they write: the options are for the profile's engine, there is a database and a table that is not
-- excluded, the artifact is no mydumper directory, an encrypted artifact is a single stream, a
-- parallel dump has a directory format and at least one job, a row filter stands only on a table
-- taken with its data, and a MongoDB collection is taken whole or excluded.
pub validate-IsRunnable :
    (r : BackupRequest) (profile : ConnectionProfile)
    → (validate r profile ≡ none) ↔ IsRunnable r profile
unfolding validate
validate-IsRunnable r profile = (
  λ h.
      let (engine, h1) = then_check-none (check_engine r profile) _ h in
      let (common, h3) = then_check-none (check_common r.common) _ h1 in
      let (named, included) = common_iff r.common common in
      let (jobs, h4) = then_check-none (check_parallel r.engine) _ h3 in
      let (threads, h5) = then_check-none (check_mydumper r.engine) _ h4 in
      let (encrypt, h6) = then_check-none (check_encrypt r.common.encrypt r.engine) _ h5 in
      let (filters, collections) = then_check-none (check_filters r.common.selections) _ h6 in
      let (one_file, one_stream) = streams r.common.encrypt r.engine threads encrypt in
      record {
        same_engine = engine_sound r profile engine;
        named = named;
        included = included;
        one_file = one_file;
        one_stream = one_stream;
        parallel = (parallel_iff r.engine).0 jobs;
        filtered = (filters_iff r.common.selections).0 filters;
        whole = (mongo_iff r.engine r.common.selections).0 collections;
      },
  λ v.
      let (threads, encrypt) = of_streams r.common.encrypt r.engine v.one_file v.one_stream in
      rw (
        engine_complete r profile v.same_engine,
        of_common r.common v.named v.included,
        (parallel_iff r.engine).1 v.parallel,
        threads,
        encrypt,
        (filters_iff r.common.selections).1 v.filtered,
        (mongo_iff r.engine r.common.selections).1 v.whole,
      ),
)
