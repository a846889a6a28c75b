-- ===== src/Graders/Precedence.antt =====
-- The precedence of the findings: which of them an aggregate has, and what an aggregate without any
-- says of its cases.
use cc_suite.Prelude.{
  ◌≡◌, refl, Bool, true, false, List, [], ◌∷◌, String, flat_map, All, All-append, arith, ok,
  nonblank, nonblank-append_left,
}
use cc_suite.Prelude.Floats.{Floats}
use cc_suite.Domain.Waivers.{SuitePolicy}
use cc_suite.Graders.{
  PrecedenceRule, requirement_ref, whole_case, r4_noncritical_threshold,
  r5_forbidden_effect_attempt,
}
use cc_suite.Graders.Verdict.{GraderResult}
use cc_suite.Graders.Cases.{CaseAttemptResult, CaseResult}
use cc_suite.Graders.Aggregate.{
  BlockingFinding, finding_post_init, lineage_findings, effect_findings, independence_findings,
  critical_findings, error_findings, inconclusive_findings, case_findings, threshold_findings,
}
use cc_suite.Graders.Reasons.{reason_text-nonblank}
use cc_suite.Graders.Outcome.{all_findings, construct_all}

requirement_ref-nonblank :
    (suite case_id grader : String)
    → nonblank suite ≡ true
    → nonblank (requirement_ref suite case_id grader) ≡ true
unfolding requirement_ref
requirement_ref-nonblank suite case_id grader h = nonblank-append_left suite _ h

abbrev pub is_r4 : PrecedenceRule → Bool
is_r4 r4_noncritical_threshold = true
is_r4 _ = false

abbrev pub is_r5 : PrecedenceRule → Bool
is_r5 r5_forbidden_effect_attempt = true
is_r5 _ = false

module _ ⦃fl : Floats⦄ where
  -- What every finding of an aggregate is: it names a requirement, and only R5 forbids a waiver.
  pub record IsWellFormed (f : BlockingFinding) : Type 0 where
    pub named : nonblank f.requirement ≡ true
    pub forbidden : f.authority_forbidden ≡ is_r5 f.rule

  module _ (suite : String) (h : nonblank suite ≡ true) where
    effects-IsWellFormed :
        (case_id : String) (attempts : List CaseAttemptResult)
        → All IsWellFormed (effect_findings (requirement_ref suite case_id whole_case) attempts)
    unfolding effect_findings
    effects-IsWellFormed case_id [] = tt
    effects-IsWellFormed case_id (a ∷ rest) = (
      record { named = requirement_ref-nonblank suite case_id whole_case h; forbidden = refl },
      effects-IsWellFormed case_id rest,
    )

    independence-IsWellFormed :
        (case_id family : String) (rs : List GraderResult)
        → All IsWellFormed (independence_findings suite case_id family rs)
    unfolding independence_findings
    independence-IsWellFormed case_id family [] = tt
    independence-IsWellFormed case_id family (r ∷ rest) = ground (
      arith,
      requirement_ref-nonblank suite case_id r.grader_id h,
      independence-IsWellFormed case_id family rest,
    )

    case-IsWellFormed :
        (policy : SuitePolicy) (family : String) (c : CaseResult)
        → All IsWellFormed (case_findings policy suite family c)
    unfolding case_findings lineage_findings critical_findings error_findings inconclusive_findings
    case-IsWellFormed policy family c =
        let named = requirement_ref-nonblank suite c.case_id whole_case h in
        All-append IsWellFormed (lineage_findings _ c) _ (ground arith) (
          All-append IsWellFormed (effect_findings _ _) _ (effects-IsWellFormed c.case_id _) (
            All-append IsWellFormed (independence_findings _ _ _ _) _
              (independence-IsWellFormed c.case_id family _)
              (All-append IsWellFormed (critical_findings _ c) _ (ground arith)
                (All-append IsWellFormed (error_findings _ c) _ (ground arith) (ground arith)))))

    cases-IsWellFormed :
        (policy : SuitePolicy) (family : String) (cases : List CaseResult)
        → All IsWellFormed (flat_map (case_findings policy suite family) cases)
    cases-IsWellFormed policy family [] = tt
    cases-IsWellFormed policy family (c ∷ cs) =
        All-append IsWellFormed (case_findings policy suite family c) _
          (case-IsWellFormed policy family c) (cases-IsWellFormed policy family cs)

    threshold-IsWellFormed :
        (policy : SuitePolicy) (cases : List CaseResult)
        → All IsWellFormed (threshold_findings policy suite cases)
    unfolding threshold_findings
    threshold-IsWellFormed policy cases =
        ground (arith, requirement_ref-nonblank suite "noncritical-threshold" whole_case h)

    pub findings-IsWellFormed :
        (policy : SuitePolicy) (family : String) (cases : List CaseResult)
        → All IsWellFormed (all_findings policy suite family cases)
    unfolding all_findings
    findings-IsWellFormed policy family cases =
        All-append IsWellFormed (flat_map (case_findings policy suite family) cases) _
          (cases-IsWellFormed policy family cases) (threshold-IsWellFormed policy cases)

  pub construct_all-ok :
      (fs : List BlockingFinding) → All IsWellFormed fs → construct_all fs ≡ ok tt
  unfolding construct_all finding_post_init
  construct_all-ok [] h = refl
  construct_all-ok (f ∷ rest) h =
      ground (arith, h.0.named, reason_text-nonblank f.reason, construct_all-ok rest h.1)
