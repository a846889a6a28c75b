-- ===== src/Qualification/Tests.antt =====
-- The theorems on qualification.py at concrete values.
use cc_suite.Prelude.{
  ◌≡◌, refl, true, false, not, none, some, any, filter, List, [], ◌∷◌, ok, All, is_ok, nonblank,
  is_space, ◌&&◌, ◌||◌, sha256_match, str_eq, ltb,
}
use cc_suite.Prelude.Fractions.{fractions}
use cc_suite.Domain.{DateTime, GateMode, QualificationState, is_blocking, same_qualification_state}
use cc_suite.Domain.Waivers.{EvalWaiver}
use cc_suite.Graders.{
  requirement_ref, r5_forbidden_effect_attempt, r1_critical_deterministic_failure,
}
use cc_suite.Graders.Reasons.{inconclusive_blocks}
use cc_suite.Graders.Aggregate.{BlockingFinding}
use cc_suite.Graders.Tests.{digest, green_outcome, failed_case}
use cc_suite.Qualification.Waivers.{
  WaiverApplication, apply_waivers, by_id, sort_findings, find_match, try_waiver,
  waiver_inactive_reason, is_past, waiver_requirement_ref, rejected_of, set_default,
  authority_forbids,
}
use cc_suite.Qualification.Cover.{
  covers, left_over, covered, apply_waivers-left_over, waivers_authorize_nothing,
}
use cc_suite.Qualification.Issue.{
  Qualification, IssueRequest, Hashing, ExamIdentity, issue_qualification, build, with_receipt,
  compare_to_baseline, nonempty, would_block_under_enforcement,
  apply_waiver_to_rejected_qualification, derive_state, evidence_of, qualification_checks,
}
use cc_suite.Qualification.Issued.{
  is_qualified, is_advisory_qualified, is_pending_or_rejected, review_is_missing, regression_stands,
  refuses, regresses, is_advisory_gate, issued_state_exact, enforcement_preview_exact,
  forbidden_finding_rejects, material_regression_exact,
}
use cc_suite.Qualification.Storable.{IsStored, issued_is_storable, waived_is_storable}
use cc_suite.Qualification.Staleness.{evaluate_staleness, releases, live_exactly_unchanged}

abbrev noon : DateTime
noon = record { instant = 43200; is_aware = true }

abbrev evening : DateTime
evening = record { instant = 70000; is_aware = true }

-- A failure that a waiver covers, and a forbidden effect that none may cover.
abbrev failure : BlockingFinding
failure = record {
  rule = r1_critical_deterministic_failure;
  requirement = "suite::c::*";
  reason = inconclusive_blocks;
  authority_forbidden = false;
}

abbrev forbidden : BlockingFinding
forbidden = record {
  rule = r5_forbidden_effect_attempt;
  requirement = "suite::c::*";
  reason = inconclusive_blocks;
  authority_forbidden = true;
}

abbrev waiver : EvalWaiver
waiver = record {
  id = 3;
  tenant_id = "tenant-zero";
  target_fingerprint = digest;
  failed_suite_id = "suite";
  failed_case_id = "c";
  failed_grader_id = "*";
  approver_identity = "founder";
  rationale = "known";
  evidence_ref = "doc/1";
  expires_at = some evening;
  release_bound_to = "";
}

apply_waivers-left_over_example :
    (app : WaiverApplication) × (apply_waivers
        (failure ∷ forbidden ∷ [])
        (waiver ∷ [])
        digest
        noon
        "r1"
      ≡ ok app)
    × (app.remaining ≡ left_over digest noon "r1" (failure ∷ forbidden ∷ []) (waiver ∷ []))
    × (app.applied ≡ covered digest noon "r1" (failure ∷ forbidden ∷ []) (waiver ∷ []))
unfolding sha256_match
apply_waivers-left_over_example =
    apply_waivers-left_over digest noon "r1" (failure ∷ forbidden ∷ []) (waiver ∷ []) refl refl
      (refl, tt)

waivers_authorize_nothing_example :
    (app : WaiverApplication) × (apply_waivers
        (failure ∷ forbidden ∷ [])
        (waiver ∷ [])
        digest
        noon
        "r1"
      ≡ ok app)
    × (filter (λ f. f.authority_forbidden) app.remaining ≡ forbidden ∷ [])
    × All (λ a. covers digest noon "r1" a.finding a.waiver ≡ true) app.applied
unfolding sha256_match
waivers_authorize_nothing_example =
    waivers_authorize_nothing digest noon "r1" (failure ∷ forbidden ∷ []) (waiver ∷ []) refl refl
      (refl, tt)

abbrev exam : ExamIdentity
exam = record {
  suite_id = "suite";
  suite_version = "1";
  grader_versions = [];
  rubric_versions = [];
  thresholds = [];
  attempt_policy_digest = "p";
}

-- One digest for every exam and every receipt.
instance abbrev one_digest : Hashing
one_digest = record { exam_digest = λ e. digest; compute_receipt = λ q. digest }

abbrev issue_request : IssueRequest
issue_request = record {
  qualification_id = "q1";
  target_fingerprint = digest;
  exam = exam;
  outcome = green_outcome;
  gate_mode = GateMode.blocking;
  reviewer_identity = "r";
  reviewer_family = "reviewer";
  subject_family = "subject";
  issued_at = noon;
  expires_at = evening;
  waivers = [];
  baseline = none;
  release_id = "r1";
  human_review_completed = false;
  regression_acknowledged = false;
}

-- The same with another outcome's findings.
abbrev request_on : List BlockingFinding → IssueRequest
request_on fs = record issue_request {
  outcome = record green_outcome { findings = fs };
  waivers = waiver ∷ [];
}

abbrev nothing_applied : WaiverApplication
nothing_applied = record { remaining = []; applied = []; rejected = [] }

abbrev qualified : Qualification
qualified = with_receipt (build issue_request nothing_applied)

qualified-issued : issue_qualification issue_request ≡ ok qualified
unfolding issue_qualification build apply_waivers by_id sort_findings sha256_match nonblank is_space
    qualification_checks
qualified-issued = refl

issued_state_exact_example :
    (is_qualified qualified.state ≡ (
      is_blocking qualified.gate_mode
      && not (nonempty qualified.remaining_findings)
      && (not (nonempty qualified.applied_waivers)
          && not (review_is_missing issue_request)
          && not (refuses qualified))
      && not (regression_stands issue_request qualified)))
    × (is_advisory_qualified qualified.state ≡ (
        not (is_blocking qualified.gate_mode)
        && (not (nonempty qualified.applied_waivers)
            && not (review_is_missing issue_request)
            && not (refuses qualified))
        && (is_advisory_gate qualified.gate_mode
            || not (regression_stands issue_request qualified))))
    × ((is_qualified qualified.state
          || is_advisory_qualified qualified.state
          || is_pending_or_rejected qualified.state)
        ≡ true)
issued_state_exact_example = issued_state_exact issue_request qualified qualified-issued

enforcement_preview_exact_example : is_qualified qualified.state ≡ (
    not (would_block_under_enforcement qualified)
    && not (review_is_missing issue_request)
    && not (regression_stands issue_request qualified))
enforcement_preview_exact_example =
    enforcement_preview_exact issue_request qualified qualified qualified-issued qualified-issued

abbrev on_forbidden : WaiverApplication
on_forbidden = record {
  remaining = forbidden ∷ [];
  applied = [];
  rejected = record { waiver = waiver; reason = authority_forbids "suite::c::*" } ∷ [];
}

abbrev refused_qualification : Qualification
refused_qualification = with_receipt (build (request_on (forbidden ∷ [])) on_forbidden)

refused-issued : issue_qualification (request_on (forbidden ∷ [])) ≡ ok refused_qualification
unfolding issue_qualification build apply_waivers by_id sort_findings sha256_match nonblank is_space
    qualification_checks find_match try_waiver waiver_inactive_reason is_past waiver_requirement_ref
    requirement_ref rejected_of set_default
refused-issued = refl

forbidden_finding_rejects_example :
    (refused_qualification.state ≡ QualificationState.rejected)
    × (is_ok (apply_waiver_to_rejected_qualification refused_qualification) ≡ false)
forbidden_finding_rejects_example =
    forbidden_finding_rejects (request_on (forbidden ∷ [])) refused_qualification refused-issued
      refl refl (refl, tt)

material_regression_exact_example :
    (compare_to_baseline
      (record green_outcome { case_results = failed_case ∷ [] })
      digest
      (some qualified)).material_regression
    ≡ (str_eq qualified.exam_digest digest
        && any (regresses qualified.aggregate) (failed_case ∷ []))
unfolding build
material_regression_exact_example =
    material_regression_exact (record green_outcome { case_results = failed_case ∷ [] }) digest
      qualified

issued_is_storable_example : IsStored qualified "tenant-zero" 7 digest
unfolding sha256_match nonblank is_space
issued_is_storable_example =
    issued_is_storable issue_request qualified "tenant-zero" 7 digest qualified-issued refl refl

abbrev on_failure : WaiverApplication
on_failure = record {
  remaining = [];
  applied = record { waiver = waiver; finding = failure } ∷ [];
  rejected = [];
}

abbrev waivable : Qualification
waivable = with_receipt (build (request_on (failure ∷ [])) on_failure)

abbrev waived_qualification : Qualification
waived_qualification = with_receipt (record waivable { state = QualificationState.waived })

waived_is_storable_example :
    IsStored waived_qualification "tenant-zero" 7 digest
    × (waived_qualification.state ≡ QualificationState.waived)
    × (waivable.state ≡ QualificationState.rejected)
    × (nonempty waivable.applied_waivers ≡ true)
    × (waivable.remaining_findings ≡ [])
unfolding sha256_match nonblank is_space apply_waiver_to_rejected_qualification build derive_state
    evidence_of
waived_is_storable_example =
    waived_is_storable waivable waived_qualification "tenant-zero" 7 digest refl refl refl

live_exactly_unchanged_example :
    (s : QualificationState) × (evaluate_staleness qualified digest exam noon ≡ ok s)
    × (releases s ≡ (
        str_eq digest qualified.target_fingerprint
        && str_eq digest qualified.exam_digest
        && ltb noon.instant qualified.expires_at.instant
        && releases qualified.state))
    × ((same_qualification_state s QualificationState.stale
          || same_qualification_state s QualificationState.expired
          || same_qualification_state s qualified.state)
        ≡ true)
unfolding sha256_match
live_exactly_unchanged_example = live_exactly_unchanged qualified digest exam noon refl refl
