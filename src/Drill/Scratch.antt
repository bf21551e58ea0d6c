-- ===== src/Drill/Scratch.antt =====
-- engine/src/ops.rs: the names that a drill makes are the names that it may drop.
use mysql_ssh_db_sync.Prelude.{
  ℕ, zero, suc, ◌≡◌, ◌≤◌, inl, inr, refl, ap, ◌∙◌, Bool, true, false, not, ◌&&◌, Option, none, some,
  List, [], ◌∷◌, ◌++◌, append_assoc, arith, Text, text, all, take, length, byte_len, Lacks,
  strip_prefix, strip_prefix_append, split_once-append, Result, ok, err, ◌>>=◌, Bool-cases,
  Option-cases,
}
use mysql_ssh_db_sync.Restore.{RestoreRequest, EngineRestoreOptions, is_timestamped, resolve}
use mysql_ssh_db_sync.Types.{BackupManifest}
use mysql_ssh_db_sync.Verify.{VerificationReport, passed}
use mysql_ssh_db_sync.Pipeline.Run.{DrillOutcome}
use mysql_ssh_db_sync.Drill.{
  drill_prefix_text, discriminator_len, drill_prefix, is_ascii_hexdigit, has_discriminator,
  is_drill_stamp, stamp_part, is_drill_rest, strip_both, is_drill_database, Artifact, DrillError,
  no_backups, no_readable_manifest, failed, refusing_to_drop, DrillEvent, restored, dropped,
  DrillSite, check_against_manifest, dropping, drop_scratch_database, scratch_request, conclude,
  clean_up, after_check, with_event, after_scratch, drill_artifact, drill, or_failed,
}

-- A UUID as it is printed, without dashes.
abbrev pub IsUuid : Text → Type 0
IsUuid u = (6 ≤ length u) × (all is_ascii_hexdigit u ≡ true)

all-take :
    (n : ℕ) (s : Text) → all is_ascii_hexdigit s ≡ true → all is_ascii_hexdigit (take n s) ≡ true
all-take zero s h = refl
all-take (suc n) [] h = refl
all-take (suc n) (c ∷ s) h = ground (arith, h, all-take n s)

Lacks-hex_digits : (s : Text) → all is_ascii_hexdigit s ≡ true → Lacks 95 s
Lacks-hex_digits [] h = tt
Lacks-hex_digits (c ∷ s) h = ((λ e. ground (arith, h, e)), Lacks-hex_digits s (ground (arith, h)))

byte_len-take :
    (n : ℕ) (s : Text) → n ≤ length s → all is_ascii_hexdigit s ≡ true → byte_len (take n s) ≡ n
byte_len-take zero s h k = refl
byte_len-take (suc n) [] h k = absurd (omega arith)
byte_len-take (suc n) (c ∷ s) h k = ground (arith, h, k, byte_len-take n s)

generated :
    (uuid stamp : Text)
    → IsUuid uuid
    → is_drill_stamp stamp ≡ true
    → is_drill_database (drill_prefix uuid ++ (text "_" ++ stamp)) ≡ true
unfolding is_drill_database drill_prefix
generated uuid stamp u h =
    let d = take discriminator_len uuid in
    let hex = all-take discriminator_len uuid u.1 in
    let rest = d ++ (95 ∷ stamp) in
    let name : drill_prefix uuid ++ (text "_" ++ stamp) ≡ drill_prefix_text ++ (95 ∷ rest) =
      append_assoc drill_prefix_text (95 ∷ d) (95 ∷ stamp) in
    let cut : strip_both (strip_prefix drill_prefix_text (drill_prefix uuid ++ (text "_" ++ stamp)))
        ≡ some rest =
      ap (λ n. strip_both (strip_prefix drill_prefix_text n)) name
      ∙ ap strip_both (strip_prefix_append drill_prefix_text (95 ∷ rest))
      ∙ strip_prefix_append (95 ∷ []) rest in
    let parts = split_once-append 95 d stamp (Lacks-hex_digits d hex) in
    let discriminated : has_discriminator d stamp ≡ true =
      rw (byte_len-take discriminator_len uuid u.0 u.1, hex, h) refl in
    let picked : stamp_part rest (some (d, stamp)) ≡ stamp = rw discriminated refl in
    ap is_drill_rest cut
    ∙ ap (λ o. is_drill_stamp (stamp_part rest o)) parts
    ∙ ap is_drill_stamp picked
    ∙ h

-- A restore that overwrites nothing, of an artifact whose checksum is compared.
abbrev pub IsHarmless : RestoreRequest → Type 0
IsHarmless r =
    (is_timestamped r.naming ≡ true) × (r.verify_checksum ≡ true) × (r.typed_confirmation ≡ none)

-- How a drill may end.
pub data Finished : List DrillEvent × Result DrillError DrillOutcome → Type 0 where
  no_artifact : (dir : Text) → Finished ([], err (no_backups dir))
  no_manifest : (name : Text) → Finished ([], err (no_readable_manifest name))
  not_restored : (e : ℕ) → Finished ([], err (failed e))
  left_by_error :
      (r : RestoreRequest) (s : Text) (e : ℕ)
      → IsHarmless r
      → is_drill_database s ≡ true
      → Finished (restored r s ∷ [], err (failed e))
  kept :
      (r : RestoreRequest) (s : Text) (o : DrillOutcome)
      → IsHarmless r
      → is_drill_database s ≡ true
      → o.scratch_database ≡ s
      → o.dropped ≡ false
      → passed o.report ≡ false
      → Finished (restored r s ∷ [], ok o)
  cleaned :
      (r : RestoreRequest) (s : Text) (o : DrillOutcome)
      → IsHarmless r
      → is_drill_database s ≡ true
      → o.scratch_database ≡ s
      → o.dropped ≡ true
      → Finished (restored r s ∷ dropped s ∷ [], ok o)

-- The error of the server, and no refusal.
abbrev FailsOutside : {A : Type 0} → Result DrillError A → Type 0
FailsOutside (ok a) = Unit
FailsOutside (err (failed e)) = Unit
FailsOutside (err _) = ⊥

FailsOutside-bind :
    {A B : Type 0} (answer : Result ℕ A) (f : A → Result DrillError B)
    → ((a : A) → FailsOutside (f a))
    → FailsOutside (or_failed answer >>= f)
FailsOutside-bind (ok a) f h = h a
FailsOutside-bind (err e) f h = tt

FailsOutside-check :
    (site : DrillSite) (manifest : BackupManifest) (s : Text) (deep : Bool)
    → FailsOutside (check_against_manifest site manifest s deep)
unfolding check_against_manifest
FailsOutside-check site manifest s false =
    FailsOutside-bind (site.count_tables s manifest.tables) _ (λ counts. tt)
FailsOutside-check site manifest s true =
    FailsOutside-bind (site.count_tables s manifest.tables) _
      (λ counts. FailsOutside-bind (site.digest_tables s manifest.tables) _ (λ found. tt))

module _ (site : DrillSite) (uuid : IsUuid site.uuid) (stamp : ℕ → Text)
    (stamps : (now : ℕ) → is_drill_stamp (stamp now) ≡ true)
    (names : (r : RestoreRequest) (s : Text)
      → site.restore r ≡ ok s
      → (now : ℕ) × (s ≡ resolve stamp r.naming now)) where
  scratch_name :
      (options : EngineRestoreOptions) (path s : Text)
      → site.restore (scratch_request site options path) ≡ ok s
      → is_drill_database s ≡ true
  unfolding resolve
  scratch_name options path s h =
      let (now, named) = names (scratch_request site options path) s h in
      ap is_drill_database named ∙ generated site.uuid (stamp now) uuid (stamps now)

  module _ (keep : Bool) (artifact : Artifact) (r : RestoreRequest) (harmless : IsHarmless r)
      (s : Text) (own : is_drill_database s ≡ true) where
    Finished-dropping :
        (report : VerificationReport) (gone : Result ℕ (Unit {0}))
        → Finished (
            with_event site keep artifact
              (restored r s)
              (conclude site keep artifact s report (dropping site s gone)))
    Finished-dropping report (ok _) = cleaned r s _ harmless own refl refl
    Finished-dropping report (err e) = left_by_error r s e harmless own

    Finished-clean_up :
        (report : VerificationReport)
        → Finished
            (with_event site keep artifact (restored r s) (clean_up site keep artifact s report))
    unfolding clean_up drop_scratch_database
    Finished-clean_up report = elim (Bool-cases (not (passed report) && keep)) [
      | inl keeps ↦ rw keeps (kept r s _ harmless own refl refl (ground (arith, keeps)))
      | inr drops ↦ rw (drops, own) (Finished-dropping report (site.drop_database s))
    ]

    Finished-after_check :
        (checked : Result DrillError VerificationReport)
        → FailsOutside checked
        → Finished (
            with_event site keep artifact (restored r s) (after_check site keep artifact s checked))
    Finished-after_check (ok report) h = Finished-clean_up report
    Finished-after_check (err (failed e)) h = left_by_error r s e harmless own
    Finished-after_check (err (no_backups dir)) h = absurd h
    Finished-after_check (err (no_readable_manifest name)) h = absurd h
    Finished-after_check (err (refusing_to_drop name)) h = absurd h

  module _ (keep : Bool) (artifact : Artifact) (options : EngineRestoreOptions) (deep : Bool) where
    Finished-after_scratch :
        (manifest : BackupManifest) (answer : Result ℕ Text)
        → site.restore (scratch_request site options artifact.path) ≡ answer
        → Finished (after_scratch site keep artifact options deep manifest answer)
    Finished-after_scratch manifest (err e) h = not_restored e
    Finished-after_scratch manifest (ok s) h =
        Finished-after_check keep artifact (scratch_request site options artifact.path)
          ((refl, refl, refl)) s (scratch_name options artifact.path s h)
          (check_against_manifest site manifest s deep) (FailsOutside-check site manifest s deep)

    Finished-drill_artifact :
        (manifest : Option BackupManifest)
        → Finished (drill_artifact site keep artifact options deep manifest)
    Finished-drill_artifact none = no_manifest artifact.filename
    Finished-drill_artifact (some manifest) =
        Finished-after_scratch manifest (site.restore (scratch_request site options artifact.path))
          refl

  -- Whatever the directory and the server answer, a drill restores into a fresh database, with the
  -- checksum compared, and drops no other database than that one, whose name is a drill's. It is
  -- never refused to drop it: a drill that ends with a report has dropped it, unless the report
  -- failed and the evidence is kept, and the outcome says which. The UUID is six hexadecimal digits
  -- or more, and a restore names its target by a prefix and a time of 15 characters.
  pub drill-Finished :
      (dir : Text) (options : EngineRestoreOptions) (deep keep : Bool)
      → Finished (drill site dir options deep keep)
  unfolding drill
  drill-Finished dir options deep keep = elim (Option-cases site.newest) [
    | inl none' ↦ rw none' (no_artifact dir)
    | inr (artifact, found) ↦
        rw found
          (Finished-drill_artifact keep artifact options deep (site.read_manifest artifact.path))
  ]
