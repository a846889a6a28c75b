-- ===== src/Graders/Verdict.antt =====
-- `GraderResult`, the verdict of a grader in process (graders.py, lines 173-284). That `kind`,
-- `state`, `criticality` and `adjudicated_at` are typed is their type here.
use cc_suite.Prelude.{
  Bool, true, false, not, ◌&&◌, ◌||◌, Option, String, Result, ok, raise_if, ◌>>◌, >>-ok,
  raise_if-ok, raise_if-false, ◌≡◌, nonblank, is_some, sha256_match,
}
use cc_suite.Domain.{
  DateTime, ResultState, GraderKind, Criticality, Refusal, is_pass, is_fail, is_error,
  is_inconclusive, is_semantic, is_human, is_advisory,
}
use cc_suite.Domain.Grades.{differs}

pub record GraderResult : Type 0 where
  pub grader_id : String
  pub grader_version : String
  pub kind : GraderKind
  pub state : ResultState
  pub reason : String
  pub criticality : Criticality
  pub evidence_ref : String
  pub evidence_sha256 : String
  pub error_detail : String
  pub grader_family : String
  pub judge_model_id : String
  pub rubric_id : String
  pub rubric_version : String
  pub rubric_sha256 : String
  pub adjudicator_identity : String
  pub adjudicator_family : String
  pub adjudicated_at : Option DateTime

evidence_checks : GraderResult → Result Refusal (Unit {0})
evidence_checks r = do
  let has_ref = nonblank r.evidence_ref
  let has_digest = nonblank r.evidence_sha256
  raise_if (has_digest && not (sha256_match r.evidence_sha256)) Refusal.malformed_digest
  raise_if (differs has_ref has_digest) Refusal.half_bound_evidence
  raise_if ((is_pass r.state || is_fail r.state) && not has_ref) Refusal.grade_without_evidence

unfoldable pub semantic_checks : Bool → GraderResult → Result Refusal (Unit {0})
semantic_checks false r = ok tt
semantic_checks true r = do
  raise_if (not (is_advisory r.criticality)) Refusal.semantic_not_advisory
  raise_if
      (not (
        nonblank r.judge_model_id
        && nonblank r.rubric_id
        && nonblank r.rubric_version
        && nonblank r.rubric_sha256))
      Refusal.unpinned_judge

adjudication_checks : GraderResult → Result Refusal (Unit {0})
adjudication_checks r = do
  raise_if
      (is_human r.kind
        && not (is_inconclusive r.state || is_error r.state)
        && not (nonblank r.adjudicator_identity))
      Refusal.unadjudicated_review
  raise_if (nonblank r.adjudicator_identity && not (is_some r.adjudicated_at))
      Refusal.adjudicator_without_time
  raise_if (not (nonblank r.adjudicator_identity) && is_some r.adjudicated_at)
      Refusal.time_without_adjudicator

-- `__post_init__`
checks : GraderResult → Result Refusal (Unit {0})
unfolding evidence_checks semantic_checks adjudication_checks
checks r = do
  raise_if (not (nonblank r.grader_id && nonblank r.grader_version)) Refusal.blank_grader
  raise_if (not (nonblank r.reason)) Refusal.blank_grader_reason
  raise_if (not (nonblank r.grader_family)) Refusal.blank_grader_family
  raise_if (is_error r.state && not (nonblank r.error_detail)) Refusal.error_names_no_fault
  raise_if (not (is_error r.state) && nonblank r.error_detail) Refusal.detail_without_error
  evidence_checks r
  semantic_checks (is_semantic r.kind) r
  adjudication_checks r

-- The constructor, over the given fields.
unfoldable pub post_init : GraderResult → Result Refusal GraderResult
unfolding checks
post_init r = do checks r; ok r

abbrev pub blocking_eligible : GraderResult → Bool
blocking_eligible r = not (is_advisory r.criticality)

-- What the constructor has checked.
pub record IsVerdict (r : GraderResult) : Type 0 where
  pub named_fault : (is_error r.state && not (nonblank r.error_detail)) ≡ false
  pub reasoned : not (nonblank r.reason) ≡ false
  pub bound_evidence : differs (nonblank r.evidence_ref) (nonblank r.evidence_sha256) ≡ false
  pub graded_evidence :
      ((is_pass r.state || is_fail r.state) && not (nonblank r.evidence_ref)) ≡ false
  pub semantic : semantic_checks (is_semantic r.kind) r ≡ ok tt
  pub adjudicator_time : (nonblank r.adjudicator_identity && not (is_some r.adjudicated_at)) ≡ false
  pub time_adjudicator : (not (nonblank r.adjudicator_identity) && is_some r.adjudicated_at) ≡ false

pub post_init-IsVerdict : (r : GraderResult) → post_init r ≡ ok r → IsVerdict r
unfolding post_init
post_init-IsVerdict r h =
    let (h0, _) = >>-ok (checks r) _ h in
    let (_, h1) = raise_if-ok _ _ _ h0 in
    let (reasoned, h2) = raise_if-ok _ _ _ h1 in
    let (_, h3) = raise_if-ok _ _ _ h2 in
    let (named, h4) = raise_if-ok _ _ _ h3 in
    let (_, h5) = raise_if-ok _ _ _ h4 in
    let (evidence, h6) = >>-ok (evidence_checks r) _ h5 in
    let (semantic, h7) = >>-ok (semantic_checks (is_semantic r.kind) r) _ h6 in
    let (_, e1) = raise_if-ok _ _ _ evidence in
    let (bound, e2) = raise_if-ok _ _ _ e1 in
    let (_, a1) = raise_if-ok _ _ _ h7 in
    let (timed, a2) = raise_if-ok _ _ _ a1 in
    record {
      named_fault = named;
      reasoned = reasoned;
      bound_evidence = bound;
      graded_evidence = raise_if-false _ _ e2;
      semantic = semantic;
      adjudicator_time = timed;
      time_adjudicator = raise_if-false _ _ a2;
    }

-- The constructor changes no field.
pub post_init-same : (r : GraderResult) {r' : GraderResult} → post_init r ≡ ok r' → r ≡ r'
unfolding post_init
post_init-same r {r'} h =
    let built : ◌≡◌ {A = Result Refusal GraderResult} (ok r) (ok r') = (>>-ok (checks r) _ h).1 in
    cc built
