-- ===== src/Graders.antt =====
-- fleet_kernel/eval_plane/graders.py: verdicts, attempts, cases and the aggregate over a suite.
pub mod Verdict
pub mod Bridge
pub mod Runner
pub mod RunnerTotality
pub mod Cases
pub mod CaseStates
pub mod Reasons
pub mod Aggregate
pub mod Outcome
pub mod Counters
pub mod Precedence
pub mod Green
pub mod Tests
use cc_suite.Prelude.{Bool, true, false, String, str_append}

pub data AttemptAggregateRule : Type 0 where
  all_must_pass threshold : AttemptAggregateRule

pub data PrecedenceRule : Type 0 where
  r1_critical_deterministic_failure r2_unresolved_required_error : PrecedenceRule
  r3_required_inconclusive r4_noncritical_threshold : PrecedenceRule
  r5_forbidden_effect_attempt r6_attempt_lineage_incomplete : PrecedenceRule
  r7_grader_independence : PrecedenceRule

-- `f"{suite_id}::{case_id}::{grader_id}"`
unfoldable pub requirement_ref : String → String → String → String
requirement_ref suite_id case_id grader_id =
    str_append suite_id (str_append "::" (str_append case_id (str_append "::" grader_id)))

-- The default `"*"` of `grader_id`: the whole case.
abbrev pub whole_case : String
whole_case = "*"

abbrev pub deterministic_family : String
deterministic_family = "deterministic"
