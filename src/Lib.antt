-- ===== src/Lib.antt =====
-- The engine of a tool that backs databases up, restores them elsewhere, and does so on a
-- schedule (engine/, a Rust crate). Its parts, in the order in which a run goes through them:
--
-- A connection profile (engine/src/profile.rs, Types.antt) says where a server is, which engine
-- it is and whether it is a production server. A backup request (engine/src/backup/mod.rs,
-- Backup.antt) is checked against a profile before a dump tool starts, and its artifact is
-- described by a manifest (engine/src/manifest.rs, Types.antt). A restore request
-- (engine/src/restore/mod.rs, Restore.antt) names the database that is written, which may be a
-- new one, and is checked against the profile and the manifest. A pipeline
-- (engine/src/pipeline.rs, Pipeline.antt) is a chain of such steps with masking
-- (engine/src/mask/mod.rs, Mask.antt), verification and retention; the store
-- (engine/src/store.rs) keeps it with the permission to run unattended, and the scheduler
-- (engine/src/scheduler.rs) supplies the confirmations that the permission stands for. The run
-- of a chain (engine/src/ops.rs, `run_pipeline`, Pipeline/Run.antt) calls the operations of its
-- steps in order, with the reports of engine/src/verify.rs (Verify.antt), the saved table sets
-- of engine/src/plan.rs (Plan.antt) and the kinds of step of engine/src/step.rs (Step.antt).
-- Retention (engine/src/retention.rs, Retention.antt) plans which artifacts are deleted, and
-- the plan of a masking (Mask.antt, Mask/Columns, Mask/Coverage) which of its rules apply.
--
-- Files. Prelude.antt and its children are what the others share: Boolean tests and equality as
-- an interface, the iterator methods, stable sorts, texts as code points with `trim`, `join`,
-- `lines`, `split_once` and `replace`, UTF-8, decimal numbers, and results. Each component's
-- file declares the data and the functions, with the source's names; its children hold the
-- proofs: Backup/Laws, Restore/Names and Restore/Laws, Pipeline/Spec (what a well-formed chain
-- is), Pipeline/Steps and Pipeline/Arming, Retention/Limits, Retention/Partition and
-- Retention/Plan. Pipeline/Connections is `validate_against`, and Pipeline/Engines is about it.
-- Pipeline/Run declares the state of a run, Run/Prepare what it decides before its first step,
-- Run/Walk the steps; Run/Journal reads a run's log and has the induction over the walk,
-- Run/Transitions the relation of a step to its ends, Run/Preparation, Run/Gates, Run/Panics,
-- Run/Completion and Run/Unattended the proofs. A child called Examples runs the code at
-- concrete inputs.
--
-- A schedule (engine/src/schedule.rs, Schedule.antt) starts a sync, a drill or a pipeline with
-- nobody present; Schedule/Checks is about its check and its requests, Schedule/Due about when
-- it is due. Cron.antt is the matching and scanning part of engine/src/cron.rs, which decides
-- when a schedule is due; Cron/Parse is its parser with the sets of 64 bits (Cron/Bits) that a
-- field becomes, Cron/Grammar says how a field is written and what it means, Cron/Tokens and
-- Cron/Parts are about its values and its parts, Cron/Values about the loop over the values,
-- and Cron/Selection about the field; Cron/Source is about the text that an expression
-- keeps; Cron/Days compares the scan of a day, and Cron/Scan that over the days, with a search
-- through every minute (Prelude/Search, Prelude/Ranges), and Cron/Next says what is found.
--
-- The off-site copies go to a store that speaks S3. S3/Sign is the percent encoding, the
-- canonical query and the signature (engine/src/s3/sign.rs), which S3/Encoding, S3/Query and
-- S3/Signature are about; S3/Xml is the reading of an answer (engine/src/s3/xml.rs), which
-- S3/Escapes and S3/Elements are about. A drill (`drill` in engine/src/ops.rs, Drill.antt)
-- restores a backup into a scratch database, checks it against its manifest and drops it again;
-- Drill/Scratch is about the scratch database and Drill/Checks about the checks.
-- Mask/Statements has the SQL that a masking sends, and Mask/Updates, Mask/Reader,
-- Mask/Numbered, Mask/Fragments, Mask/Violations and Mask/Placeholders are about it.
-- Verify.antt compares two databases; Verify/Verdicts is about the comparison of counts and
-- Verify/Contents about that of contents. Plan/Expansion is about the tables that a saved set
-- stands for.
--
-- A dump of MySQL is filtered line by line as it is taken (engine/src/definer.rs,
-- Definer.antt); Definer/Pieces has what a line is made of, and Definer/Removal is about what
-- is written.
--
-- How the code is written here. A method of a struct is a function of the record. `Result<(),
-- E>` is an option of the error, and a chain of early returns is `then_check`; a message is
-- replaced by what it is made of. A loop is a function of the rest of the list and the loop's
-- variables. Ids are numbers. Instants are numbers of nanoseconds from the earliest one
-- (Retention) or of seconds (Restore), dates numbers of days and wall-clock minutes numbers of
-- minutes (Cron); a subtraction that leaves the range of dates, where the code panics, has no
-- result. A sum of sizes wraps at 64 bits. How an instant prints is a parameter. The operations
-- that a run calls are a record of answers, each a function of the calls before it, which are
-- the run's log; a panic is an error of its own. A map from step numbers is a list of pairs in
-- the order of the keys.
--
-- Bounds. No function uses fuel but the search for an unused name, which is the code's own
-- window of 60 seconds, the scan of a cron expression, which is the code's own 1600 days, the
-- loop over the values of a cron field, which has 64 rounds, one for each bit of the field's
-- set, and the loop over the elements of an answer, which has a round for each character. A
-- file's size, a count of steps and a list's length are not bounded.
--
-- Not modelled: child processes, SSH sessions, SQL, HTTP and the file system, the command line
-- and the desktop application, which are glue; the bodies of the operations that a run calls;
-- the sentence that `describe` makes of a cron expression, and the reports' `to_markdown`. The
-- hashes of the crates sha2 and hmac, the answers of the servers and the site of a drill are
-- parameters.
pub mod Prelude
pub mod Types
pub mod Backup
pub mod Restore
pub mod Mask
pub mod Verify
pub mod Plan
pub mod Step
pub mod Pipeline
pub mod Retention
pub mod Cron
pub mod Schedule
pub mod S3
pub mod Definer
pub mod Drill
