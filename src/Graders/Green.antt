-- ===== src/Graders/Green.antt =====
-- When an aggregate is made, what its threshold can do, and what an aggregate without findings says
-- of every case.
use cc_suite.Prelude.{
  ◌≡◌, refl, Bool, true, false, not, ◌&&◌, ◌||◌, List, [], ◌∷◌, ◌++◌, String, str_eq, flat_map,
  filter, any, All, arith, ok, is_ok, nonblank, ◌∙◌, ap, sym, inl, inr, Bool-cases,
}
use cc_suite.Prelude.Floats.{Floats}
use cc_suite.Domain.{
  is_pass, is_fail, is_error, is_inconclusive, is_critical, is_review, Criticality,
}
use cc_suite.Domain.Waivers.{SuitePolicy}
use cc_suite.Graders.Verdict.{GraderResult}
use cc_suite.Graders.Cases.{
  CaseAttemptResult, CaseResult, case_state, case_post_init, forbidden_effect_attempts,
  lineage_complete, blocking_eligible_grader_results,
}
use cc_suite.Graders.Aggregate.{
  BlockingFinding, when_holds, lineage_findings, effect_findings, independence_findings,
  critical_findings, error_findings, inconclusive_findings, case_findings, threshold_findings,
}
use cc_suite.Graders.Outcome.{AggregateOutcome, all_findings, aggregate, qualifiable, is_empty}
use cc_suite.Graders.Precedence.{IsWellFormed, findings-IsWellFormed, construct_all-ok, is_r4}

module _ ⦃fl : Floats⦄ where
  -- Where integers, floats and reprs can be printed, the aggregate is made exactly when the suite's id
  -- and version and the subject's family are not blank: no finding's own constructor, which wants a
  -- requirement and a reason that are not blank, ever refuses it.
  pub aggregate_made_exact :
      (cases : List CaseResult) (policy : SuitePolicy) (suite version family : String)
      → is_ok (aggregate cases policy suite version family)
        ≡ (nonblank suite && nonblank version && nonblank family)
  unfolding aggregate
  aggregate_made_exact cases policy suite version family = elim (Bool-cases (nonblank suite)) [
    | inl h ↦ ground (
      arith,
      construct_all-ok (all_findings policy suite family cases)
          (findings-IsWellFormed suite h policy family cases),
    )
    | inr h ↦ ground arith
  ]

  aggregate-outcome :
      (cases : List CaseResult) (policy : SuitePolicy) (suite version family : String)
      {o : AggregateOutcome}
      → aggregate cases policy suite version family ≡ ok o
      → (nonblank suite ≡ true)
        × (o.findings ≡ all_findings policy suite family cases)
        × (o.case_results ≡ cases)
  unfolding aggregate
  aggregate-outcome cases policy suite version family h = ground arith

  -- Every finding of an aggregate names a requirement, and it is marked as forbidden by the runtime
  -- authority exactly when its rule is R5.
  pub aggregate-IsWellFormed :
      (cases : List CaseResult) (policy : SuitePolicy) (suite version family : String)
      {o : AggregateOutcome}
      → aggregate cases policy suite version family ≡ ok o
      → All IsWellFormed o.findings
  aggregate-IsWellFormed cases policy suite version family h =
      let (named, fs, _) = aggregate-outcome cases policy suite version family h in
      rw fs (findings-IsWellFormed suite named policy family cases)

  -- What a case without findings is.
  pub record IsGreen (policy : SuitePolicy) (family : String) (c : CaseResult) : Type 0 where
    pub complete : lineage_complete c ≡ true
    pub harmless : any (λ a. a.forbidden_effect_attempted) c.attempts ≡ false
    pub independent :
        any (λ r. str_eq r.grader_family family) (blocking_eligible_grader_results c) ≡ false
    pub resolved : (c.required && is_error (case_state c)) ≡ false
    pub answered :
        (c.required && is_inconclusive (case_state c) && not (is_review policy.inconclusive_policy))
        ≡ false
    pub critical_passes :
        c.criticality ≡ Criticality.critical
        → (is_pass (case_state c)
            || is_inconclusive (case_state c) && is_review policy.inconclusive_policy)
          ≡ true

  append-empty : {A : Type 0} (xs ys : List A) → xs ++ ys ≡ [] → (xs ≡ []) × (ys ≡ [])
  append-empty [] ys h = (refl, h)
  append-empty (x ∷ xs) ys h = cc

  no_effects :
      (ref : String) (xs : List CaseAttemptResult)
      → effect_findings ref (filter (λ a. a.forbidden_effect_attempted) xs) ≡ []
      → any (λ a. a.forbidden_effect_attempted) xs ≡ false
  unfolding effect_findings
  no_effects ref [] h = refl
  no_effects ref (x ∷ xs) h = ground (arith, no_effects ref xs)

  no_same_family :
      (suite case_id family : String) (rs : List GraderResult)
      → independence_findings suite case_id family rs ≡ []
      → any (λ r. str_eq r.grader_family family) rs ≡ false
  unfolding independence_findings
  no_same_family suite case_id family [] h = refl
  no_same_family suite case_id family (r ∷ rs) h =
      elim (Bool-cases (str_eq r.grader_family family)) [
        | inl same ↦ ground arith
        | inr other ↦ ground (arith, no_same_family suite case_id family rs)
      ]

  -- A critical case is required: its constructor has checked it.
  critical_required :
      (c : CaseResult)
      → case_post_init c ≡ ok c
      → (is_critical c.criticality && not c.required) ≡ false
  unfolding case_post_init
  critical_required c h = ground arith

  not-false : (b : Bool) → not b ≡ false → b ≡ true
  not-false true h = refl
  not-false false h = cc

  when_holds-empty : {A : Type 0} (b : Bool) (a : A) → when_holds b a ≡ [] → b ≡ false
  when_holds-empty true a h = cc
  when_holds-empty false a h = refl

  -- The state of a case is one of four.
  critical_state :
      (c : CaseResult) (review : Bool)
      → (is_critical c.criticality && not c.required) ≡ false
      → (is_critical c.criticality && is_fail (case_state c)) ≡ false
      → (c.required && is_error (case_state c)) ≡ false
      → (c.required && is_inconclusive (case_state c) && not review) ≡ false
      → c.criticality ≡ Criticality.critical
      → (is_pass (case_state c) || is_inconclusive (case_state c) && review) ≡ true
  critical_state c review required failed error open_question k = ground arith

  case-IsGreen :
      (policy : SuitePolicy) (suite family : String) (c : CaseResult)
      → case_post_init c ≡ ok c
      → case_findings policy suite family c ≡ []
      → IsGreen policy family c
  unfolding case_findings forbidden_effect_attempts lineage_findings critical_findings
      error_findings inconclusive_findings
  case-IsGreen policy suite family c valid h =
      let (lineage, h1) = append-empty (lineage_findings _ c) _ h in
      let (effects, h2) = append-empty (effect_findings _ (forbidden_effect_attempts c)) _ h1 in
      let (families, h3) =
        append-empty
          (independence_findings suite c.case_id family (blocking_eligible_grader_results c)) _
          h2 in
      let (critical, h4) = append-empty (critical_findings _ c) _ h3 in
      let (errors, open_questions) = append-empty (error_findings _ c) _ h4 in
      let failed = when_holds-empty _ _ critical in
      let resolved = when_holds-empty _ _ errors in
      let answered = when_holds-empty _ _ open_questions in
      record {
        complete = not-false _ (when_holds-empty _ _ lineage);
        harmless = no_effects _ c.attempts effects;
        independent =
            no_same_family suite c.case_id family (blocking_eligible_grader_results c) families;
        resolved = resolved;
        answered = answered;
        critical_passes =
            critical_state c (is_review policy.inconclusive_policy) (critical_required c valid)
              failed resolved answered;
      }

  cases-IsGreen :
      (policy : SuitePolicy) (suite family : String) (cases : List CaseResult)
      → All (λ c. case_post_init c ≡ ok c) cases
      → flat_map (case_findings policy suite family) cases ≡ []
      → All (IsGreen policy family) cases
  cases-IsGreen policy suite family [] valid h = tt
  cases-IsGreen policy suite family (c ∷ cs) valid h =
      let (first, rest) = append-empty (case_findings policy suite family c) _ h in
      (
        case-IsGreen policy suite family c valid.0 first,
        cases-IsGreen policy suite family cs valid.1 rest,
      )

  same_findings :
      (p q : SuitePolicy) (suite family : String) (cases : List CaseResult)
      → p.inconclusive_policy ≡ q.inconclusive_policy
      → flat_map (case_findings p suite family) cases
        ≡ flat_map (case_findings q suite family) cases
  unfolding case_findings inconclusive_findings
  same_findings p q suite family [] h = refl
  same_findings p q suite family (c ∷ cs) h = rw (h, same_findings p q suite family cs h)

  only_r4 :
      (p : SuitePolicy) (suite : String) (cases : List CaseResult)
      → All (λ f. is_r4 f.rule ≡ true) (threshold_findings p suite cases)
  unfolding threshold_findings
  only_r4 p suite cases = ground arith

  is_empty-eq : (fs : List BlockingFinding) → is_empty fs ≡ true → fs ≡ []
  is_empty-eq [] h = refl
  is_empty-eq (f ∷ fs) h = cc

  -- If cases that their constructors accept aggregate to a qualifiable outcome, then every case has
  -- its full lineage, no attempt at a forbidden effect and no blocking verdict by the subject's own
  -- family; a required case is not in ERROR, and INCONCLUSIVE only under the policy REVIEW; and a
  -- critical case passes, or is INCONCLUSIVE under that policy.
  pub qualifiable-IsGreen :
      (cases : List CaseResult) (policy : SuitePolicy) (suite version family : String)
      {o : AggregateOutcome}
      → All (λ c. case_post_init c ≡ ok c) cases
      → aggregate cases policy suite version family ≡ ok o
      → qualifiable o ≡ true
      → All (IsGreen policy family) cases
  unfolding all_findings
  qualifiable-IsGreen cases policy suite version family {o} valid h q =
      let (_, fs, _) = aggregate-outcome cases policy suite version family h in
      let (none_found, _) =
        append-empty (flat_map (case_findings policy suite family) cases) _
          (sym fs ∙ is_empty-eq o.findings q) in
      cases-IsGreen policy suite family cases valid none_found

  -- Two policies that agree on inconclusive cases give the same findings but for R4, which stands
  -- last: no threshold and no gate mode removes a finding of another rule.
  pub threshold_only_adds :
      (cases : List CaseResult) (p q : SuitePolicy) (suite family : String)
      → p.inconclusive_policy ≡ q.inconclusive_policy
      → (common rest_p rest_q : List BlockingFinding) × (all_findings p suite family cases
          ≡ common ++ rest_p)
        × (all_findings q suite family cases ≡ common ++ rest_q)
        × All (λ f. is_r4 f.rule ≡ true) rest_p
        × All (λ f. is_r4 f.rule ≡ true) rest_q
  unfolding all_findings
  threshold_only_adds cases p q suite family h = (
    flat_map (case_findings p suite family) cases,
    threshold_findings p suite cases,
    threshold_findings q suite cases,
    refl,
    ap (λ fs. fs ++ threshold_findings q suite cases)
        (sym (same_findings p q suite family cases h)),
    only_r4 p suite cases,
    only_r4 q suite cases,
  )
