-- ===== src/Domain/Grades.antt =====
-- `GraderResult`, the persisted row of a verdict (domain.py, lines 313-412). That `adjudicated_at`
-- is a `datetime` is its type here.
use cc_suite.Prelude.{
  ℕ, Bool, true, false, not, ◌&&◌, ◌||◌, Option, none, some, String, str_eq, Result, ok, raise_if,
  ◌≡◌, ◌>>◌, nonblank, is_truthy, is_some, sha256_fullmatch,
}
use cc_suite.Domain.{
  DateTime, ResultState, GraderKind, Criticality, is_pass, is_fail, is_error, is_semantic,
  is_advisory, Fault,
}
use cc_suite.Domain.Runs.{require_tenant}

pub record GraderResult : Type 0 where
  pub tenant_id : String
  pub attempt_id : ℕ
  pub grader_id : String
  pub grader_version : String
  pub grader_kind : GraderKind
  pub grader_family : String
  pub subject_family : String
  pub result : ResultState
  pub criticality : Criticality
  pub reason : String
  pub evidence_ref : String
  pub evidence_sha256 : Option String
  pub error_detail : String
  pub judge_model_id : String
  pub rubric_id : String
  pub rubric_version : String
  pub rubric_sha256 : Option String
  pub adjudicator_identity : String
  pub adjudicator_family : String
  pub adjudicated_at : Option DateTime

-- The truth value of an optional text.
abbrev pub is_truthy? : Option String → Bool
is_truthy? none = false
is_truthy? (some s) = is_truthy s

unfoldable pub is_digest? : Option String → Bool
is_digest? none = true
is_digest? (some s) = sha256_fullmatch s

unfoldable pub semantic_checks : Bool → GraderResult → Result Fault (Unit {0})
semantic_checks false r = ok tt
semantic_checks true r = do
  raise_if
      (not (
        nonblank r.judge_model_id
        && nonblank r.rubric_id
        && nonblank r.rubric_version
        && is_truthy? r.rubric_sha256))
      Fault.unpinned_judge
  raise_if (not (is_advisory r.criticality)) Fault.semantic_not_advisory

adjudication_checks : GraderResult → Result Fault (Unit {0})
adjudication_checks r = do
  raise_if (nonblank r.adjudicator_identity && not (is_some r.adjudicated_at))
      Fault.adjudicator_without_time
  raise_if (not (nonblank r.adjudicator_identity) && is_some r.adjudicated_at)
      Fault.time_without_adjudicator

abbrev is_graded : ResultState → Bool
is_graded s = is_pass s || is_fail s

abbrev pub differs : Bool → Bool → Bool
differs true b = not b
differs false b = b

unfoldable pub evidence_checks : GraderResult → Result Fault (Unit {0})
evidence_checks r = do
  let has_ref = nonblank r.evidence_ref
  let has_digest = is_some r.evidence_sha256
  raise_if (is_graded r.result && not (has_ref && has_digest)) Fault.grade_without_evidence
  raise_if (differs has_ref has_digest) Fault.half_bound_evidence
  raise_if (has_digest && not (is_digest? r.evidence_sha256)) Fault.bad_digest

unfoldable pub validate : GraderResult → Result Fault GraderResult
unfolding adjudication_checks
validate r = do
  require_tenant r.tenant_id
  raise_if
      (is_truthy r.grader_family
        && str_eq r.grader_family r.subject_family
        && not (is_semantic r.grader_kind))
      Fault.same_family
  raise_if (is_truthy r.adjudicator_identity && str_eq r.adjudicator_family r.subject_family)
      Fault.same_family_adjudicator
  semantic_checks (is_semantic r.grader_kind) r
  raise_if (is_error r.result && not (nonblank r.error_detail)) Fault.error_without_detail
  adjudication_checks r
  raise_if (not (nonblank r.reason)) Fault.blank_reason
  evidence_checks r
  ok r

-- Where every check before the evidence passes, the checks on the evidence decide.
pub validate_of_checks :
    (r : GraderResult)
    → require_tenant r.tenant_id ≡ ok tt
    → (is_truthy r.grader_family
        && str_eq r.grader_family r.subject_family
        && not (is_semantic r.grader_kind))
      ≡ false
    → (is_truthy r.adjudicator_identity && str_eq r.adjudicator_family r.subject_family) ≡ false
    → semantic_checks (is_semantic r.grader_kind) r ≡ ok tt
    → (is_error r.result && not (nonblank r.error_detail)) ≡ false
    → (nonblank r.adjudicator_identity && not (is_some r.adjudicated_at)) ≡ false
    → (not (nonblank r.adjudicator_identity) && is_some r.adjudicated_at) ≡ false
    → not (nonblank r.reason) ≡ false
    → validate r ≡ (evidence_checks r >> ok r)
unfolding validate
validate_of_checks r tenant family adjudicator semantic detail timed named reason =
    rw (tenant, family, adjudicator, semantic, detail, timed, named, reason)
