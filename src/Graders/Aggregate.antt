-- ===== src/Graders/Aggregate.antt =====
-- Findings, counters, metrics and the aggregate over a suite (graders.py, lines 897-1164). A finding
-- has the reason that its text prints.
use cc_suite.Prelude.{
  ℕ, Bool, true, false, not, ◌&&◌, ◌||◌, Option, none, some, List, [], ◌∷◌, ◌++◌, String, str_eq,
  Result, raise_if, nonblank, if◌then◌else◌, filter, flat_map, length, count_where, sum_map, map,
}
use cc_suite.Prelude.Floats.{Floats}
use cc_suite.Domain.{
  Refusal, is_pass, is_fail, is_error, is_inconclusive, is_critical, is_noncritical, is_review,
}
use cc_suite.Domain.Waivers.{SuitePolicy}
use cc_suite.Graders.{
  PrecedenceRule, requirement_ref, whole_case, r1_critical_deterministic_failure,
  r2_unresolved_required_error, r3_required_inconclusive, r4_noncritical_threshold,
  r5_forbidden_effect_attempt, r6_attempt_lineage_incomplete, r7_grader_independence,
}
use cc_suite.Graders.Reasons.{
  Reason, lineage_incomplete, forbidden_effect, same_family, critical_failed, unresolved_error,
  inconclusive_blocks, below_threshold, reason_text,
}
use cc_suite.Graders.Verdict.{GraderResult}
use cc_suite.Graders.Cases.{
  CaseAttemptResult, CaseResult, blocking_results, retained_attempts, failed_attempts,
  errored_attempts, forbidden_effect_attempts, lineage_complete, case_state,
  blocking_eligible_grader_results,
}

-- The four counters of a verdict's row.
pub record Counters : Type 0 where
  pub critical_failure_count : ℕ
  pub error_count : ℕ
  pub inconclusive_count : ℕ
  pub forbidden_effect_count : ℕ

pub record Census : Type 0 where
  pub pass : ℕ
  pub fail : ℕ
  pub error : ℕ
  pub inconclusive : ℕ

module _ ⦃fl : Floats⦄ where
  pub record BlockingFinding : Type 0 where
    pub rule : PrecedenceRule
    pub requirement : String
    pub reason : Reason
    pub authority_forbidden : Bool

  -- The constructor's test.
  unfoldable pub finding_post_init : BlockingFinding → Result Refusal (Unit {0})
  finding_post_init f =
      raise_if (not (nonblank f.requirement && nonblank (reason_text f.reason)))
        Refusal.unnamed_finding

  unfoldable pub first_failure_reason : List GraderResult → String
  first_failure_reason [] = "no failing grader reason recorded"
  first_failure_reason (r ∷ rs) = if is_fail r.state then r.reason else first_failure_reason rs

  -- `critical case FAILED on attempt(s) …`
  pub failure_reason : CaseResult → Reason
  unfolding first_failure_reason
  failure_reason c =
      critical_failed (map (λ a. a.attempt_number) (failed_attempts c))
        (map (λ a. first_failure_reason (blocking_results a)) (failed_attempts c))

  -- `required case has an unresolved infrastructure ERROR: …`
  pub error_reason : CaseResult → Reason
  error_reason c = unresolved_error (
      flat_map
        (λ a. map (λ r. r.error_detail) (filter (λ r. is_error r.state) (blocking_results a)))
        (errored_attempts c))

  abbrev pub when_holds : {A : Type 0} → Bool → A → List A
  when_holds true a = a ∷ []
  when_holds false a = []

  unfoldable pub lineage_findings : String → CaseResult → List BlockingFinding
  lineage_findings case_ref c = when_holds (not (lineage_complete c)) (record {
    rule = r6_attempt_lineage_incomplete;
    requirement = case_ref;
    reason = lineage_incomplete (retained_attempts c) c.policy.attempts;
    authority_forbidden = false;
  })

  unfoldable pub effect_findings : String → List CaseAttemptResult → List BlockingFinding
  effect_findings case_ref [] = []
  effect_findings case_ref (a ∷ rest) =
      record {
        rule = r5_forbidden_effect_attempt;
        requirement = case_ref;
        reason = forbidden_effect a.attempt_number a.forbidden_effect_detail;
        authority_forbidden = true;
      }
      ∷ effect_findings case_ref rest

  unfoldable pub independence_findings :
      String → String → String → List GraderResult → List BlockingFinding
  independence_findings suite_id case_id subject_family [] = []
  independence_findings suite_id case_id subject_family (r ∷ rest) =
      when_holds (str_eq r.grader_family subject_family) (record {
        rule = r7_grader_independence;
        requirement = requirement_ref suite_id case_id r.grader_id;
        reason = same_family r.criticality r.grader_family;
        authority_forbidden = false;
      })
      ++ independence_findings suite_id case_id subject_family rest

  unfoldable pub critical_findings : String → CaseResult → List BlockingFinding
  critical_findings case_ref c =
      when_holds (is_critical c.criticality && is_fail (case_state c)) (record {
        rule = r1_critical_deterministic_failure;
        requirement = case_ref;
        reason = failure_reason c;
        authority_forbidden = false;
      })

  unfoldable pub error_findings : String → CaseResult → List BlockingFinding
  error_findings case_ref c = when_holds (c.required && is_error (case_state c)) (record {
    rule = r2_unresolved_required_error;
    requirement = case_ref;
    reason = error_reason c;
    authority_forbidden = false;
  })

  unfoldable pub inconclusive_findings : SuitePolicy → String → CaseResult → List BlockingFinding
  inconclusive_findings policy case_ref c =
      when_holds
        (c.required && is_inconclusive (case_state c) && not (is_review policy.inconclusive_policy))
        (record {
          rule = r3_required_inconclusive;
          requirement = case_ref;
          reason = inconclusive_blocks;
          authority_forbidden = false;
        })

  -- The findings that one round of the loop over the cases appends, in its order.
  unfoldable pub case_findings : SuitePolicy → String → String → CaseResult → List BlockingFinding
  case_findings policy suite_id subject_family c =
      let case_ref = requirement_ref suite_id c.case_id whole_case in
      lineage_findings case_ref c
      ++ (effect_findings case_ref (forbidden_effect_attempts c)
          ++ (independence_findings suite_id c.case_id subject_family
                (blocking_eligible_grader_results c)
              ++ (critical_findings case_ref c
                  ++ (error_findings case_ref c ++ inconclusive_findings policy case_ref c))))

  -- A round of the loop asks for a human review.
  unfoldable pub case_needs_review : SuitePolicy → CaseResult → Bool
  case_needs_review policy c =
      c.required && is_inconclusive (case_state c) && is_review policy.inconclusive_policy

  unfoldable pub noncritical_cases : Bool → List CaseResult → List CaseResult
  noncritical_cases required_only cases =
      filter (λ c. is_noncritical c.criticality && (c.required || not required_only)) cases

  -- `sum(… is PASS) / len(…)`, and `None` for no case.
  rate_of : List CaseResult → Option fl.Float
  rate_of [] = none
  rate_of (c ∷ cs) =
      some (fl.ratio (count_where (λ x. is_pass (case_state x)) (c ∷ cs)) (length (c ∷ cs)))

  unfoldable pub noncritical_pass_rate : List CaseResult → Bool → Option fl.Float
  unfolding noncritical_cases rate_of
  noncritical_pass_rate cases required_only = rate_of (noncritical_cases required_only cases)

  below : SuitePolicy → Option fl.Float → String → List BlockingFinding
  below policy none suite_id = []
  below policy (some rate) suite_id =
      when_holds (fl.lt rate policy.noncritical_pass_threshold) (record {
        rule = r4_noncritical_threshold;
        requirement = requirement_ref suite_id "noncritical-threshold" whole_case;
        reason = below_threshold rate policy.noncritical_pass_threshold;
        authority_forbidden = false;
      })

  -- R4, after the loop.
  unfoldable pub threshold_findings : SuitePolicy → String → List CaseResult → List BlockingFinding
  unfolding below
  threshold_findings policy suite_id cases =
      below policy (noncritical_pass_rate cases true) suite_id

  unfoldable pub domain_counters : List CaseResult → Counters
  domain_counters cases = record {
    critical_failure_count =
        count_where (λ c. is_critical c.criticality && is_fail (case_state c)) cases;
    error_count = count_where (λ c. c.required && is_error (case_state c)) cases;
    inconclusive_count = count_where (λ c. c.required && is_inconclusive (case_state c)) cases;
    forbidden_effect_count = sum_map (λ c. length (forbidden_effect_attempts c)) cases;
  }
