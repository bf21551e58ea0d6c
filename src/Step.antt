-- ===== src/Step.antt =====
-- engine/src/step.rs: the kinds of step that a job records.
pub data JobStepKind : Type 0 where
  backup restore verify mask offsite retention drill cleanup : JobStepKind
