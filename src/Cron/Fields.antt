-- ===== src/Cron/Fields.antt =====
-- engine/src/cron.rs: what holds of every result of a step of the parser.
use mysql_ssh_db_sync.Prelude.{◌≡◌, refl, Bool, true, false, if◌then◌else◌, Result, ok, err, ◌>>=◌}
use mysql_ssh_db_sync.Cron.Parse.{CronError}

-- What every result of a step has, if it has one.
abbrev pub OnOk : {A : Type 0} → (A → Type 0) → Result CronError A → Type 0
OnOk P (ok a) = P a
OnOk P (err e) = Unit

pub OnOk-bind :
    {A B : Type 0} (P : A → Type 0) (Q : B → Type 0) (r : Result CronError A)
    (f : A → Result CronError B)
    → OnOk P r
    → ((a : A) → P a → OnOk Q (f a))
    → OnOk Q (r >>= f)
OnOk-bind P Q (ok a) f h k = k a h
OnOk-bind P Q (err e) f h k = tt

pub OnOk-any : {A : Type 0} (r : Result CronError A) → OnOk (λ a. Unit) r
OnOk-any (ok a) = tt
OnOk-any (err e) = tt

pub OnOk-if :
    {A : Type 0} (P : A → Type 0) (b : Bool) (e : CronError) (r : Result CronError A)
    → (b ≡ false → OnOk P r)
    → OnOk P (if b then err e else r)
OnOk-if P true e r h = tt
OnOk-if P false e r h = h refl
