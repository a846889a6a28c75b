-- ===== src/Domain/Verdicts.antt =====
-- `EvalQualification`, the persisted release verdict, and its life cycle (domain.py, lines 178-193
-- and 434-497).
use cc_suite.Prelude.{
  ℕ, Bool, true, false, not, ◌&&◌, ◌||◌, Option, some, String, Result, ok, raise_if, ◌>>◌, nonblank,
  is_truthy, if◌then◌else◌, ltb,
}
use cc_suite.Domain.{
  DateTime, QualificationState, GateMode, InconclusivePolicy, same_qualification_state,
  qualification_transitions, is_qualifying, is_review, Fault,
}
use cc_suite.Domain.Runs.{moment_of}

pub record EvalQualification : Type 0 where
  pub tenant_id : String
  pub run_id : ℕ
  pub suite_id : String
  pub suite_version : String
  pub target_fingerprint : String
  pub state : QualificationState
  pub gate_mode : GateMode
  pub inconclusive_policy : InconclusivePolicy
  pub critical_failure_count : ℕ
  pub error_count : ℕ
  pub inconclusive_count : ℕ
  pub forbidden_effect_count : ℕ
  pub reviewer_identity : String
  pub reviewer_family : String
  pub subject_family : String
  pub receipt_sha256 : Option String
  pub snapshot_sha256 : String
  pub expires_at : Option DateTime
  pub invalidated_at : Option DateTime
  pub invalidation_reason : String
  pub decided_at : Option DateTime

unfoldable pub assert_qualification_transition :
    QualificationState → QualificationState → Result Fault (Unit {0})
unfolding qualification_transitions
assert_qualification_transition current target =
    if same_qualification_state current target
    then ok tt
    else raise_if (not (qualification_transitions current target))
        Fault.illegal_qualification_transition

abbrev is_nonzero : ℕ → Bool
is_nonzero n = ltb 0 n

abbrev is_qualified_target : QualificationState → Bool
is_qualified_target QualificationState.qualified = true
is_qualified_target _ = false

abbrev is_advisory_gate : GateMode → Bool
is_advisory_gate GateMode.advisory = true
is_advisory_gate _ = false

abbrev is_invalidation : QualificationState → Bool
is_invalidation QualificationState.stale = true
is_invalidation QualificationState.expired = true
is_invalidation _ = false

abbrev is_pending : QualificationState → Bool
is_pending QualificationState.pending = true
is_pending _ = false

-- The guard of a change to QUALIFIED or ADVISORY_QUALIFIED.
unfoldable pub qualifying_guard : EvalQualification → QualificationState → Result Fault (Unit {0})
qualifying_guard row target = do
  raise_if
      (is_nonzero row.critical_failure_count
        || is_nonzero row.error_count
        || is_nonzero row.forbidden_effect_count)
      Fault.failures_on_record
  raise_if
      (is_nonzero row.inconclusive_count
        && not (is_review row.inconclusive_policy && is_truthy row.reviewer_identity))
      Fault.unresolved_inconclusive
  raise_if (is_qualified_target target && is_advisory_gate row.gate_mode)
      Fault.advisory_gate_qualified

-- `transition`: nothing is written before the last check has passed.
unfoldable pub transition :
    EvalQualification
    → QualificationState
    → Option DateTime
    → DateTime
    → String
    → Result Fault EvalQualification
unfolding assert_qualification_transition qualifying_guard
transition row target at now reason = do
  assert_qualification_transition row.state target
  let moment = moment_of at now
  if is_qualifying target then qualifying_guard row target else ok tt
  raise_if (is_invalidation target && not (nonblank reason)) Fault.blank_invalidation
  ok (record row {
    state = target;
    invalidated_at = if is_invalidation target then some moment else row.invalidated_at;
    invalidation_reason = if is_invalidation target then reason else row.invalidation_reason;
    decided_at = if is_pending target then row.decided_at else some moment;
  })
