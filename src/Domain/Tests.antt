-- ===== src/Domain/Tests.antt =====
-- The theorems on domain.py at concrete values.
use cc_suite.Prelude.{
  nonblank, is_space, ◌≡◌, refl, true, false, none, some, is_some, any, List, [], ◌∷◌,
}
use cc_suite.Domain.{
  DateTime, EvalRunState, QualificationState, GateMode, InconclusivePolicy, ResultState,
  is_qualifying,
}
use cc_suite.Domain.Runs.{
  EvalRun, new, requests as run_requests, request as request_run, transition as transition_run,
  history as run_history, is_grading, completed_run, terminal_run_stays,
}
use cc_suite.Domain.Attempts.{EvalCaseAttempt}
use cc_suite.Domain.Verdicts.{EvalQualification}
use cc_suite.Domain.VerdictLifecycle.{
  Request, requests, IsSound, pending-requests-IsSound, rejected_never_qualifies,
}

abbrev noon : DateTime
noon = record { instant = 43200; is_aware = true }

abbrev created_run : EvalRun
created_run = record {
  tenant_id = "tenant-zero";
  suite_id = "suite";
  suite_version = "1";
  target_fingerprint = "f";
  state = EvalRunState.created;
  started_at = none;
  ended_at = none;
}

abbrev to_completion : List (EvalRunState × DateTime)
to_completion =
    (EvalRunState.target_frozen, noon)
    ∷ (EvalRunState.grading, noon)
    ∷ (EvalRunState.ready, noon)
    ∷ (EvalRunState.running, noon)
    ∷ (EvalRunState.grading, noon)
    ∷ (EvalRunState.completed, noon)
    ∷ []

completed_run_example :
    (is_some (run_requests created_run to_completion).started_at ≡ true)
    × (is_some (run_requests created_run to_completion).ended_at ≡ true)
    × (any is_grading (run_history created_run to_completion) ≡ true)
unfolding new run_requests nonblank is_space request_run transition_run
completed_run_example =
    completed_run "tenant-zero" "suite" "1" "f" created_run to_completion refl refl

abbrev cancelled_run : EvalRun
cancelled_run = record created_run { state = EvalRunState.cancelled }

terminal_run_stays_example :
    (run_requests cancelled_run to_completion).state ≡ EvalRunState.cancelled
terminal_run_stays_example = terminal_run_stays cancelled_run to_completion refl

abbrev attempts : List EvalCaseAttempt
attempts =
    record {
      tenant_id = "tenant-zero";
      case_id = "case";
      attempt_number = 1;
      forbidden_effect_attempts = 0;
      result = ResultState.error;
      counted_in_aggregate = false;
      exclusion_reason = "infrastructure";
      retry_of_attempt_id = none;
    }
    ∷ record {
      tenant_id = "tenant-zero";
      case_id = "case";
      attempt_number = 2;
      forbidden_effect_attempts = 0;
      result = ResultState.fail;
      counted_in_aggregate = true;
      exclusion_reason = "";
      retry_of_attempt_id = some 1;
    }
    ∷ []

abbrev pending_row : EvalQualification
pending_row = record {
  tenant_id = "tenant-zero";
  run_id = 7;
  suite_id = "suite";
  suite_version = "1";
  target_fingerprint = "f";
  state = QualificationState.pending;
  gate_mode = GateMode.blocking;
  inconclusive_policy = InconclusivePolicy.block;
  critical_failure_count = 1;
  error_count = 0;
  inconclusive_count = 0;
  forbidden_effect_count = 0;
  reviewer_identity = "r";
  reviewer_family = "b";
  subject_family = "a";
  receipt_sha256 = none;
  snapshot_sha256 = "";
  expires_at = none;
  invalidated_at = none;
  invalidation_reason = "";
  decided_at = none;
}

abbrev to_waived : List Request
to_waived =
    record { target = QualificationState.qualified; now = noon; reason = "" }
    ∷ record { target = QualificationState.rejected; now = noon; reason = "" }
    ∷ record { target = QualificationState.waived; now = noon; reason = "" }
    ∷ []

pending-requests-IsSound_example : IsSound (requests pending_row to_waived)
pending-requests-IsSound_example = pending-requests-IsSound pending_row to_waived refl

abbrev rejected_row : EvalQualification
rejected_row = record pending_row { state = QualificationState.rejected }

rejected_never_qualifies_example : is_qualifying (requests rejected_row to_waived).state ≡ false
rejected_never_qualifies_example = rejected_never_qualifies rejected_row to_waived refl
