-- ===== src/Qualification/Issue.antt =====
-- `ExamIdentity`, `Qualification` and its issue (qualification.py, lines 92-124, 273-320 and
-- 325-591). The sha-256 digests of canonical JSON are a parameter.
use cc_suite.Prelude.{
  ℕ, Bool, true, false, not, ◌&&◌, ◌||◌, Option, none, some, List, [], ◌∷◌, String, str_eq, Result,
  ok, raise_if, ◌>>=◌, ◌>>◌, nonblank, sha256_match, leb, ltb, if◌then◌else◌,
}
use cc_suite.Prelude.Floats.{Floats}
use cc_suite.Domain.{
  DateTime, Refusal, ResultState, Criticality, GateMode, InconclusivePolicy, QualificationState,
  is_pass, is_blocking, is_review,
}
use cc_suite.Domain.Waivers.{EvalWaiver}
use cc_suite.Graders.Cases.{CaseResult, case_state}
use cc_suite.Graders.Aggregate.{BlockingFinding, Counters, domain_counters}
use cc_suite.Graders.Outcome.{AggregateOutcome, outcome_case_state}
use cc_suite.Qualification.Waivers.{AppliedWaiver, RejectedWaiver, WaiverApplication, apply_waivers}

pub record ExamIdentity : Type 0 where
  pub suite_id : String
  pub suite_version : String
  pub grader_versions : List (String × String)
  pub rubric_versions : List (String × String)
  pub thresholds : List (String × String)
  pub attempt_policy_digest : String

-- What a case was in the baseline and is now.
pub record Delta : Type 0 where
  pub case_id : String
  pub baseline_state : ResultState
  pub current_state : ResultState
  pub criticality : Criticality

pub record BaselineComparison : Type 0 where
  pub comparable : Bool
  pub regressions : List Delta
  pub improvements : List Delta
  pub material_regression : Bool

abbrev pub incomparable : BaselineComparison
incomparable = record {
  comparable = false;
  regressions = [];
  improvements = [];
  material_regression = false;
}

abbrev pub nonempty {ℓ} : {A : Type ℓ} → List A → Bool
nonempty [] = false
nonempty (x ∷ xs) = true

abbrev is_nonzero : ℕ → Bool
is_nonzero n = ltb 0 n

-- `_qualifying_refusal`, as a truth value.
unfoldable pub qualifying_refusal : Counters → InconclusivePolicy → String → Bool
qualifying_refusal n policy reviewer_identity =
    is_nonzero n.critical_failure_count
    || is_nonzero n.error_count
    || is_nonzero n.forbidden_effect_count
    || is_nonzero n.inconclusive_count && not (is_review policy && nonblank reviewer_identity)

abbrev is_advisory_gate : GateMode → Bool
is_advisory_gate GateMode.advisory = true
is_advisory_gate _ = false

-- The facts that the issued state is derived from.
pub record Evidence : Type 0 where
  pub gate_mode : GateMode
  pub refused : Bool
  pub has_remaining : Bool
  pub has_applied : Bool
  pub requires_human_review : Bool
  pub human_review_completed : Bool
  pub material_regression : Bool
  pub regression_acknowledged : Bool

-- `_derive_state`
unfoldable pub derive_state : Evidence → QualificationState
derive_state e =
    if e.has_remaining && is_blocking e.gate_mode
    then QualificationState.rejected
    else if e.has_applied
    then QualificationState.rejected
    else if e.requires_human_review && not e.human_review_completed
    then QualificationState.pending
    else if e.material_regression
        && not e.regression_acknowledged
        && not (is_advisory_gate e.gate_mode)
    then QualificationState.rejected
    else if e.refused
    then QualificationState.rejected
    else if is_blocking e.gate_mode
    then QualificationState.qualified
    else QualificationState.advisory_qualified

module _ ⦃fl : Floats⦄ where
  pub record Qualification : Type 0 where
    pub qualification_id : String
    pub target_fingerprint : String
    pub exam : ExamIdentity
    pub exam_digest : String
    pub aggregate : AggregateOutcome
    pub gate_mode : GateMode
    pub state : QualificationState
    pub reviewer_identity : String
    pub reviewer_family : String
    pub subject_family : String
    pub issued_at : DateTime
    pub expires_at : DateTime
    pub release_id : String
    pub remaining_findings : List BlockingFinding
    pub applied_waivers : List AppliedWaiver
    pub rejected_waivers : List RejectedWaiver
    pub baseline_comparison : BaselineComparison
    pub receipt_sha256 : String

  -- `__post_init__`
  unfoldable pub qualification_checks : Qualification → Result Refusal (Unit {0})
  qualification_checks q = do
    raise_if (not (nonblank q.qualification_id)) Refusal.blank_qualification
    raise_if (not (sha256_match q.target_fingerprint)) Refusal.bad_fingerprint
    raise_if (not (sha256_match q.exam_digest)) Refusal.bad_fingerprint
    raise_if
        (not
          (nonblank q.reviewer_identity && nonblank q.reviewer_family && nonblank q.subject_family))
        Refusal.unnamed_reviewer
    raise_if (str_eq q.reviewer_family q.subject_family) Refusal.same_family_review
    raise_if (not q.issued_at.is_aware) Refusal.naive_datetime
    raise_if (not q.expires_at.is_aware) Refusal.naive_datetime
    raise_if (leb q.expires_at.instant q.issued_at.instant) Refusal.expires_before_issue

  abbrev pub case_delta : CaseResult → ResultState → Delta
  case_delta c before = record {
    case_id = c.case_id;
    baseline_state = before;
    current_state = case_state c;
    criticality = c.criticality;
  }

  -- One round of the loop of `compare_to_baseline`.
  unfoldable pub add_delta :
      CaseResult → Option ResultState → List Delta × List Delta → List Delta × List Delta
  add_delta c none acc = acc
  add_delta c (some before) (worse, better) =
      if is_pass before && not (is_pass (case_state c))
      then (case_delta c before ∷ worse, better)
      else if not (is_pass before) && is_pass (case_state c)
      then (worse, case_delta c before ∷ better)
      else (worse, better)

  unfoldable pub deltas : AggregateOutcome → List CaseResult → List Delta × List Delta
  unfolding add_delta
  deltas baseline [] = ([], [])
  deltas baseline (c ∷ cs) =
      add_delta c (outcome_case_state baseline c.case_id) (deltas baseline cs)

  unfoldable pub compared : List Delta × List Delta → BaselineComparison
  compared (worse, better) = record {
    comparable = true;
    regressions = worse;
    improvements = better;
    material_regression = nonempty worse;
  }

  unfoldable pub compare_to_baseline :
      AggregateOutcome → String → Option Qualification → BaselineComparison
  unfolding deltas compared
  compare_to_baseline current digest none = incomparable
  compare_to_baseline current digest (some baseline) =
      if not (str_eq baseline.exam_digest digest)
      then incomparable
      else compared (deltas baseline.aggregate current.case_results)

  -- The digests: of an exam's canonical JSON, and of a qualification's receipt.
  pub record Hashing : Type 0 where
    pub exam_digest : ExamIdentity → String
    pub compute_receipt : Qualification → String

module _ ⦃fl : Floats⦄ where
  -- The arguments of `issue_qualification`.
  pub record IssueRequest : Type 0 where
    pub qualification_id : String
    pub target_fingerprint : String
    pub exam : ExamIdentity
    pub outcome : AggregateOutcome
    pub gate_mode : GateMode
    pub reviewer_identity : String
    pub reviewer_family : String
    pub subject_family : String
    pub issued_at : DateTime
    pub expires_at : DateTime
    pub waivers : List EvalWaiver
    pub baseline : Option Qualification
    pub release_id : String
    pub human_review_completed : Bool
    pub regression_acknowledged : Bool

module _ ⦃fl : Floats⦄ ⦃hs : Hashing⦄ where
  unfoldable pub evidence_of : IssueRequest → WaiverApplication → BaselineComparison → Evidence
  evidence_of r app comparison = record {
    gate_mode = r.gate_mode;
    refused =
        qualifying_refusal (domain_counters r.outcome.case_results)
          r.outcome.policy.inconclusive_policy r.reviewer_identity;
    has_remaining = nonempty app.remaining;
    has_applied = nonempty app.applied;
    requires_human_review = r.outcome.requires_human_review;
    human_review_completed = r.human_review_completed;
    material_regression = comparison.material_regression;
    regression_acknowledged = r.regression_acknowledged;
  }

  abbrev pub with_receipt : Qualification → Qualification
  with_receipt q = record q { receipt_sha256 = hs.compute_receipt q }

  -- The qualification that is built of a request, without its receipt.
  unfoldable pub build : IssueRequest → WaiverApplication → Qualification
  build r app =
      let comparison = compare_to_baseline r.outcome (hs.exam_digest r.exam) r.baseline in
      record {
        qualification_id = r.qualification_id;
        target_fingerprint = r.target_fingerprint;
        exam = r.exam;
        exam_digest = hs.exam_digest r.exam;
        aggregate = r.outcome;
        gate_mode = r.gate_mode;
        state = derive_state (evidence_of r app comparison);
        reviewer_identity = r.reviewer_identity;
        reviewer_family = r.reviewer_family;
        subject_family = r.subject_family;
        issued_at = r.issued_at;
        expires_at = r.expires_at;
        release_id = r.release_id;
        remaining_findings = app.remaining;
        applied_waivers = app.applied;
        rejected_waivers = app.rejected;
        baseline_comparison = comparison;
        receipt_sha256 = "";
      }

  unfoldable pub issue_qualification : IssueRequest → Result Refusal Qualification
  issue_qualification r = do
    app ← apply_waivers r.outcome.findings r.waivers r.target_fingerprint r.issued_at r.release_id
    qualification_checks (build r app)
    ok (with_receipt (build r app))

  abbrev is_rejected : QualificationState → Bool
  is_rejected QualificationState.rejected = true
  is_rejected _ = false

  -- `would_block_under_enforcement`
  unfoldable pub would_block_under_enforcement : Qualification → Bool
  would_block_under_enforcement q =
      nonempty q.remaining_findings
      || nonempty q.applied_waivers
      || qualifying_refusal (domain_counters q.aggregate.case_results)
          q.aggregate.policy.inconclusive_policy q.reviewer_identity

  unfoldable pub apply_waiver_to_rejected_qualification :
      Qualification → Result Refusal Qualification
  apply_waiver_to_rejected_qualification q = do
    raise_if (not (is_rejected q.state)) Refusal.not_rejected
    raise_if (not (nonempty q.applied_waivers)) Refusal.no_applied_waiver
    raise_if (nonempty q.remaining_findings) Refusal.unwaived_findings
    ok (with_receipt (record q { state = QualificationState.waived }))
