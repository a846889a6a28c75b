-- ===== src/Domain.antt =====
-- fleet_kernel/eval_plane/domain.py: the vocabulary of the evaluation plane and the two tables of
-- legal state changes. Each record of that file has a module below.
pub mod Runs
pub mod Attempts
pub mod Grades
pub mod Verdicts
pub mod Waivers
pub mod VerdictLifecycle
mod Tests
use cc_suite.Prelude.{ℕ, Bool, true, false, ◌==◌}

-- A `datetime`: its instant in microseconds, and whether it carries a time zone.
pub record DateTime : Type 0 where
  pub instant : ℕ
  pub is_aware : Bool

pub data EvalRunState : Type 0 where
  created target_frozen ready running grading review_required : EvalRunState
  completed cancelled error blocked : EvalRunState

pub data ResultState : Type 0 where
  pass fail error inconclusive : ResultState

pub data GraderKind : Type 0 where
  structural trajectory outcome semantic human : GraderKind

pub data Criticality : Type 0 where
  critical noncritical advisory : Criticality

pub data QualificationState : Type 0 where
  pending advisory_qualified qualified rejected stale expired waived error : QualificationState

pub data GateMode : Type 0 where
  advisory warning blocking : GateMode

pub data InconclusivePolicy : Type 0 where
  block review : InconclusivePolicy

-- The members in the order of their class: `==` compares their places.
abbrev run_index : EvalRunState → ℕ
run_index EvalRunState.created = 0
run_index EvalRunState.target_frozen = 1
run_index EvalRunState.ready = 2
run_index EvalRunState.running = 3
run_index EvalRunState.grading = 4
run_index EvalRunState.review_required = 5
run_index EvalRunState.completed = 6
run_index EvalRunState.cancelled = 7
run_index EvalRunState.error = 8
run_index EvalRunState.blocked = 9

abbrev pub same_run_state : EvalRunState → EvalRunState → Bool
same_run_state a b = run_index a == run_index b

abbrev qualification_index : QualificationState → ℕ
qualification_index QualificationState.pending = 0
qualification_index QualificationState.advisory_qualified = 1
qualification_index QualificationState.qualified = 2
qualification_index QualificationState.rejected = 3
qualification_index QualificationState.stale = 4
qualification_index QualificationState.expired = 5
qualification_index QualificationState.waived = 6
qualification_index QualificationState.error = 7

abbrev pub same_qualification_state : QualificationState → QualificationState → Bool
same_qualification_state a b = qualification_index a == qualification_index b

-- `x is ResultState.PASS` and its like.
abbrev pub is_pass : ResultState → Bool
is_pass ResultState.pass = true
is_pass _ = false

abbrev pub is_fail : ResultState → Bool
is_fail ResultState.fail = true
is_fail _ = false

abbrev pub is_error : ResultState → Bool
is_error ResultState.error = true
is_error _ = false

abbrev pub is_inconclusive : ResultState → Bool
is_inconclusive ResultState.inconclusive = true
is_inconclusive _ = false

abbrev pub is_critical : Criticality → Bool
is_critical Criticality.critical = true
is_critical _ = false

abbrev pub is_noncritical : Criticality → Bool
is_noncritical Criticality.noncritical = true
is_noncritical _ = false

abbrev pub is_advisory : Criticality → Bool
is_advisory Criticality.advisory = true
is_advisory _ = false

abbrev pub is_semantic : GraderKind → Bool
is_semantic GraderKind.semantic = true
is_semantic _ = false

abbrev pub is_human : GraderKind → Bool
is_human GraderKind.human = true
is_human _ = false

abbrev pub is_blocking : GateMode → Bool
is_blocking GateMode.blocking = true
is_blocking _ = false

abbrev pub is_review : InconclusivePolicy → Bool
is_review InconclusivePolicy.review = true
is_review _ = false

-- `RUN_TERMINAL_STATES`
abbrev pub is_terminal_run : EvalRunState → Bool
is_terminal_run EvalRunState.completed = true
is_terminal_run EvalRunState.cancelled = true
is_terminal_run EvalRunState.error = true
is_terminal_run _ = false

-- `QUALIFYING_STATES`
abbrev pub is_qualifying : QualificationState → Bool
is_qualifying QualificationState.qualified = true
is_qualifying QualificationState.advisory_qualified = true
is_qualifying _ = false

-- `QUALIFICATION_TERMINAL_STATES`
abbrev pub is_terminal_qualification : QualificationState → Bool
is_terminal_qualification QualificationState.stale = true
is_terminal_qualification QualificationState.expired = true
is_terminal_qualification QualificationState.error = true
is_terminal_qualification _ = false

-- `_RUN_ABORTS`
abbrev is_abort : EvalRunState → Bool
is_abort EvalRunState.cancelled = true
is_abort EvalRunState.error = true
is_abort _ = false

-- `target in RUN_TRANSITIONS[current]`
unfoldable pub run_transitions : EvalRunState → EvalRunState → Bool
run_transitions EvalRunState.created t = elim t [
  | target_frozen ↦ true
  | blocked ↦ true
  | other ↦ is_abort other
]
run_transitions EvalRunState.target_frozen t = elim t [
  | ready ↦ true
  | blocked ↦ true
  | other ↦ is_abort other
]
run_transitions EvalRunState.ready t = elim t [
  | running ↦ true
  | blocked ↦ true
  | other ↦ is_abort other
]
run_transitions EvalRunState.running t = elim t [
  | grading ↦ true
  | blocked ↦ true
  | other ↦ is_abort other
]
run_transitions EvalRunState.grading t = elim t [
  | review_required ↦ true
  | completed ↦ true
  | blocked ↦ true
  | other ↦ is_abort other
]
run_transitions EvalRunState.review_required t = elim t [
  | completed ↦ true
  | blocked ↦ true
  | other ↦ is_abort other
]
run_transitions EvalRunState.blocked t = elim t [ ready ↦ true | other ↦ is_abort other ]
run_transitions _ t = false

-- `target in QUALIFICATION_TRANSITIONS[current]`
unfoldable pub qualification_transitions : QualificationState → QualificationState → Bool
qualification_transitions QualificationState.pending t = elim t [
  | qualified ↦ true
  | advisory_qualified ↦ true
  | rejected ↦ true
  | error ↦ true
  | _ ↦ false
]
qualification_transitions QualificationState.qualified t = elim t [
  | stale ↦ true
  | expired ↦ true
  | _ ↦ false
]
qualification_transitions QualificationState.advisory_qualified t = elim t [
  | stale ↦ true
  | expired ↦ true
  | _ ↦ false
]
qualification_transitions QualificationState.rejected t = elim t [
  | waived ↦ true
  | stale ↦ true
  | _ ↦ false
]
qualification_transitions QualificationState.waived t = elim t [
  | stale ↦ true
  | expired ↦ true
  | _ ↦ false
]
qualification_transitions _ t = false

-- What the constructors and the methods of this file raise.
pub data Fault : Type 0 where
  blank_tenant illegal_run_transition illegal_qualification_transition : Fault
  attempt_number_below_one retry_without_predecessor discarded_result : Fault
  unexplained_exclusion counted_with_exclusion : Fault
  same_family same_family_adjudicator unpinned_judge semantic_not_advisory : Fault
  error_without_detail adjudicator_without_time time_without_adjudicator blank_reason : Fault
  grade_without_evidence half_bound_evidence bad_digest : Fault
  failures_on_record unresolved_inconclusive advisory_gate_qualified blank_invalidation : Fault
  incomplete_requirement incomplete_approval unbounded_waiver : Fault

-- What the constructors and the functions of graders.py and qualification.py raise.
pub data Refusal : Type 0 where
  blank_grader blank_grader_reason blank_grader_family : Refusal
  error_names_no_fault detail_without_error : Refusal
  malformed_digest half_bound_evidence grade_without_evidence : Refusal
  semantic_not_advisory unpinned_judge unadjudicated_review : Refusal
  adjudicator_without_time time_without_adjudicator : Refusal
  no_attempts_declared threshold_without_rate rate_without_threshold : Refusal
  blank_case attempt_below_one unnamed_forbidden_effect : Refusal
  no_attempt_retained foreign_attempt repeated_attempt_number : Refusal
  critical_on_average critical_not_required : Refusal
  blank_suite blank_subject_family unnamed_finding : Refusal
  blank_tenant bad_fingerprint naive_datetime mixed_datetimes : Refusal
  blank_qualification unnamed_reviewer same_family_review expires_before_issue : Refusal
  not_rejected no_applied_waiver unwaived_findings : Refusal
  refused_row : Fault → Refusal
