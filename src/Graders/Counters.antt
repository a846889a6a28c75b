-- ===== src/Graders/Counters.antt =====
-- The counters of a verdict's row count the findings of the aggregate, rule by rule.
use cc_suite.Prelude.{
  ℕ, ◌≡◌, refl, Bool, true, false, not, ◌&&◌, List, [], ◌∷◌, String, if◌then◌else◌, flat_map,
  length, count_where, count_where-append, arith,
}
use cc_suite.Prelude.Floats.{Floats}
use cc_suite.Domain.{is_fail, is_error, is_inconclusive, is_critical, is_review, InconclusivePolicy}
use cc_suite.Domain.Waivers.{SuitePolicy}
use cc_suite.Graders.{
  PrecedenceRule, requirement_ref, whole_case, r1_critical_deterministic_failure,
  r2_unresolved_required_error, r3_required_inconclusive, r5_forbidden_effect_attempt,
}
use cc_suite.Graders.Verdict.{GraderResult}
use cc_suite.Graders.Cases.{
  CaseAttemptResult, CaseResult, case_state, forbidden_effect_attempts,
  blocking_eligible_grader_results,
}
use cc_suite.Graders.Aggregate.{
  Counters, BlockingFinding, lineage_findings, effect_findings, independence_findings,
  critical_findings, error_findings, inconclusive_findings, case_findings, threshold_findings,
  domain_counters,
}
use cc_suite.Graders.Outcome.{all_findings}

-- A rule that the findings can be counted by.
pub data Counted : Type 0 where
  r1 r2 r3 r5 : Counted

abbrev pub has_rule : Counted → PrecedenceRule → Bool
has_rule r1 r1_critical_deterministic_failure = true
has_rule r2 r2_unresolved_required_error = true
has_rule r3 r3_required_inconclusive = true
has_rule r5 r5_forbidden_effect_attempt = true
has_rule _ _ = false

-- What the counters say of the rule: under REVIEW an inconclusive case makes no finding.
abbrev pub counter_of : Counted → InconclusivePolicy → Counters → ℕ
counter_of r1 policy n = n.critical_failure_count
counter_of r2 policy n = n.error_count
counter_of r3 policy n = if is_review policy then 0 else n.inconclusive_count
counter_of r5 policy n = n.forbidden_effect_count

module _ ⦃fl : Floats⦄ where
  abbrev pub count_rule : Counted → List BlockingFinding → ℕ
  count_rule k fs = count_where (λ f. has_rule k f.rule) fs

  count_lineage :
      (k : Counted) (ref : String) (c : CaseResult) → count_rule k (lineage_findings ref c) ≡ 0
  unfolding lineage_findings
  count_lineage k ref c = ground arith

  count_effects :
      (k : Counted) (ref : String) (attempts : List CaseAttemptResult)
      → count_rule k (effect_findings ref attempts)
        ≡ (if has_rule k r5_forbidden_effect_attempt then length attempts else 0)
  unfolding effect_findings
  count_effects k ref [] = ground arith
  count_effects k ref (a ∷ rest) = ground (arith, count_effects k ref rest)

  count_independence :
      (k : Counted) (suite case_id family : String) (rs : List GraderResult)
      → count_rule k (independence_findings suite case_id family rs) ≡ 0
  unfolding independence_findings
  count_independence k suite case_id family [] = refl
  count_independence k suite case_id family (r ∷ rest) =
      ground (arith, count_independence k suite case_id family rest)

  count_critical :
      (k : Counted) (ref : String) (c : CaseResult)
      → count_rule k (critical_findings ref c) ≡ (
          if has_rule k r1_critical_deterministic_failure
            && (is_critical c.criticality && is_fail (case_state c))
          then 1
          else 0)
  unfolding critical_findings
  count_critical k ref c = ground arith

  count_error :
      (k : Counted) (ref : String) (c : CaseResult)
      → count_rule k (error_findings ref c) ≡ (
          if has_rule k r2_unresolved_required_error && (c.required && is_error (case_state c))
          then 1
          else 0)
  unfolding error_findings
  count_error k ref c = ground arith

  count_inconclusive :
      (k : Counted) (policy : SuitePolicy) (ref : String) (c : CaseResult)
      → count_rule k (inconclusive_findings policy ref c) ≡ (
          if has_rule k r3_required_inconclusive
            && (c.required
                && is_inconclusive (case_state c)
                && not (is_review policy.inconclusive_policy))
          then 1
          else 0)
  unfolding inconclusive_findings
  count_inconclusive k policy ref c = ground arith

  count_threshold :
      (k : Counted) (policy : SuitePolicy) (suite : String) (cases : List CaseResult)
      → count_rule k (threshold_findings policy suite cases) ≡ 0
  unfolding threshold_findings
  count_threshold k policy suite cases = ground arith

  -- One round of the loop adds to the findings of a rule what it adds to its counter.
  count_case :
      (k : Counted) (policy : SuitePolicy) (suite family : String) (c : CaseResult)
      → count_rule k (case_findings policy suite family c)
        ≡ counter_of k policy.inconclusive_policy (domain_counters (c ∷ []))
  unfolding case_findings domain_counters
  count_case k policy suite family c =
      let ref = requirement_ref suite c.case_id whole_case in
      simp count_where-append (
        ground (
          arith,
          count_lineage k ref c,
          count_effects k ref (forbidden_effect_attempts c),
          count_independence k suite c.case_id family (blocking_eligible_grader_results c),
          count_critical k ref c,
          count_error k ref c,
          count_inconclusive k policy ref c,
        ))

  count_cases :
      (k : Counted) (policy : SuitePolicy) (suite family : String) (cases : List CaseResult)
      → count_rule k (flat_map (case_findings policy suite family) cases)
        ≡ counter_of k policy.inconclusive_policy (domain_counters cases)
  unfolding domain_counters
  count_cases k policy suite family [] = ground arith
  count_cases k policy suite family (c ∷ cs) =
      rw (count_where-append (λ f. has_rule k f.rule) (case_findings policy suite family c))
        (ground (arith, count_case k policy suite family c, count_cases k policy suite family cs))

  -- The findings of a suite have as many of R1, R2 and R5 as the row's counters of critical
  -- failures, errors and forbidden effects say, and as many of R3 as its counter of inconclusive
  -- cases, or none where the policy is REVIEW.
  pub counters_count_findings :
      (k : Counted) (policy : SuitePolicy) (suite family : String) (cases : List CaseResult)
      → count_rule k (all_findings policy suite family cases)
        ≡ counter_of k policy.inconclusive_policy (domain_counters cases)
  unfolding all_findings
  counters_count_findings k policy suite family cases =
      rw
        (count_where-append (λ f. has_rule k f.rule)
          (flat_map (case_findings policy suite family) cases))
        (omega
          (arith, count_threshold k policy suite cases, count_cases k policy suite family cases))
