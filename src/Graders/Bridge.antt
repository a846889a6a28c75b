-- ===== src/Graders/Bridge.antt =====
-- `to_domain_result`: the verdict of a grader as a persisted row (graders.py, lines 302-338).
use cc_suite.Prelude.{
  ℕ, ◌≡◌, refl, Bool, true, false, not, ◌&&◌, ◌||◌, Option, none, some, String, str_eq, Result, ok,
  err, raise_if, ◌>>◌, nonblank, is_truthy, is_some, sha256_fullmatch, nonblank-is_truthy,
  fullmatch-nonblank, arith, is_ok, ◌∙◌,
}
use cc_suite.Domain.{Refusal, refused_row, is_semantic, Fault}
use cc_suite.Domain.Grades.{
  validate, is_truthy?, is_digest?, validate_of_checks, evidence_checks,
  semantic_checks as semantic_row_checks,
}
use cc_suite.Domain.Grades.{GraderResult as GraderRow}
use cc_suite.Graders.Verdict.{
  GraderResult, post_init, IsVerdict, post_init-IsVerdict, semantic_checks,
}

-- `text or None`
unfoldable pub or_none : String → Option String
or_none String.[] = none
or_none (String.◌∷◌ c s) = some (String.◌∷◌ c s)

-- The fields of the row.
abbrev pub row_of : String → ℕ → String → GraderResult → GraderRow
row_of tenant_id attempt_id subject_family r = record {
  tenant_id = tenant_id;
  attempt_id = attempt_id;
  grader_id = r.grader_id;
  grader_version = r.grader_version;
  grader_kind = r.kind;
  grader_family = r.grader_family;
  subject_family = subject_family;
  result = r.state;
  criticality = r.criticality;
  reason = r.reason;
  evidence_ref = r.evidence_ref;
  evidence_sha256 = or_none r.evidence_sha256;
  error_detail = r.error_detail;
  judge_model_id = r.judge_model_id;
  rubric_id = r.rubric_id;
  rubric_version = r.rubric_version;
  rubric_sha256 = or_none r.rubric_sha256;
  adjudicator_identity = r.adjudicator_identity;
  adjudicator_family = r.adjudicator_family;
  adjudicated_at = r.adjudicated_at;
}

-- A fault of the row's constructor, as it passes through.
abbrev pub from_row {ℓ} : {A : Type ℓ} → Result Fault A → Result Refusal A
from_row (ok a) = ok a
from_row (err e) = err (refused_row e)

unfoldable pub to_domain_result : GraderResult → String → ℕ → String → Result Refusal GraderRow
to_domain_result r tenant_id attempt_id subject_family = do
  raise_if (not (nonblank tenant_id)) Refusal.blank_tenant
  from_row (validate (row_of tenant_id attempt_id subject_family r))

-- The verdict is by another family than the subject's, and so is its adjudicator.
pub record IsIndependent (r : GraderResult) (subject_family : String) : Type 0 where
  pub family : (is_semantic r.kind || not (str_eq r.grader_family subject_family)) ≡ true
  pub adjudicator :
      (is_truthy r.adjudicator_identity && str_eq r.adjudicator_family subject_family) ≡ false

-- The digest is empty or 64 hexadecimal digits and nothing else.
pub has_clean_digest : GraderResult → Bool
has_clean_digest r = not (is_truthy r.evidence_sha256) || sha256_fullmatch r.evidence_sha256

is_some-or_none : (s : String) → is_some (or_none s) ≡ is_truthy s
unfolding or_none is_truthy
is_some-or_none String.[] = refl
is_some-or_none (String.◌∷◌ c s) = refl

is_truthy?-or_none : (s : String) → is_truthy? (or_none s) ≡ is_truthy s
unfolding or_none is_truthy
is_truthy?-or_none String.[] = refl
is_truthy?-or_none (String.◌∷◌ c s) = refl

is_digest?-or_none :
    (s : String) → is_digest? (or_none s) ≡ (not (is_truthy s) || sha256_fullmatch s)
unfolding or_none is_truthy is_digest?
is_digest?-or_none String.[] = refl
is_digest?-or_none (String.◌∷◌ c s) = refl

is_ok-from_row {ℓ} : {A : Type ℓ} (x : Result Fault A) → is_ok (from_row x) ≡ is_ok x
is_ok-from_row (ok a) = refl
is_ok-from_row (err e) = refl

-- A verdict by another family, or by a judge, passes the row's test.
independent_family :
    (truthy semantic same : Bool)
    → (semantic || not same) ≡ true
    → (truthy && same && not semantic) ≡ false
independent_family truthy semantic same h = ground arith

module _ (tenant_id subject_family : String) (attempt_id : ℕ) (r : GraderResult)
    (v : IsVerdict r) where
  semantic_row :
      semantic_row_checks (is_semantic r.kind) (row_of tenant_id attempt_id subject_family r)
      ≡ ok tt
  unfolding semantic_row_checks semantic_checks
  semantic_row =
      ground
        (arith, v.semantic, is_truthy?-or_none r.rubric_sha256, nonblank-is_truthy r.rubric_sha256)

  evidence_row :
      let row = row_of tenant_id attempt_id subject_family r in
      is_ok (evidence_checks row >> ok row) ≡ has_clean_digest r
  unfolding evidence_checks has_clean_digest
  evidence_row = ground (
    arith,
    v.bound_evidence,
    v.graded_evidence,
    is_some-or_none r.evidence_sha256,
    is_digest?-or_none r.evidence_sha256,
    nonblank-is_truthy r.evidence_sha256,
    fullmatch-nonblank r.evidence_sha256,
  )

  evidence_row_from :
      is_ok (
        from_row (
          evidence_checks (row_of tenant_id attempt_id subject_family r)
          >> ok (row_of tenant_id attempt_id subject_family r)))
      ≡ has_clean_digest r
  evidence_row_from = is_ok-from_row _ ∙ evidence_row

module _ (tenant_id subject_family : String) (attempt_id : ℕ) (r : GraderResult) where
  -- A verdict that its constructor accepts, by a grader and an adjudicator of other families than the
  -- subject's, becomes a row for a tenant that is not blank exactly when its evidence digest is empty
  -- or is 64 hexadecimal digits and nothing else: for any other the bridge raises.
  pub bridge_exact :
      nonblank tenant_id ≡ true
      → post_init r ≡ ok r
      → IsIndependent r subject_family
      → is_ok (to_domain_result r tenant_id attempt_id subject_family) ≡ has_clean_digest r
  unfolding to_domain_result has_clean_digest
  bridge_exact t p i =
      let v = post_init-IsVerdict r p in
      let checked =
        validate_of_checks (row_of tenant_id attempt_id subject_family r) (rw t)
          (independent_family _ _ _ i.family) i.adjudicator
          (semantic_row tenant_id subject_family attempt_id r v) v.named_fault v.adjudicator_time
          v.time_adjudicator v.reasoned in
      rw (t, checked) (evidence_row_from tenant_id subject_family attempt_id r v)
