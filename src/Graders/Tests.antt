-- ===== src/Graders/Tests.antt =====
-- The theorems on graders.py at concrete values.
use cc_suite.Prelude.{
  ◌≡◌, refl, true, false, none, all, List, [], ◌∷◌, String, ok, err, All, is_ok, nonblank, is_space,
  is_truthy, ◌++◌, sha256_match, ◌&&◌,
}
use cc_suite.Prelude.Fractions.{fractions}
use cc_suite.Domain.{ResultState, GraderKind, Criticality, GateMode, InconclusivePolicy, is_pass}
use cc_suite.Domain.Waivers.{SuitePolicy}
use cc_suite.Graders.{all_must_pass}
use cc_suite.Graders.Verdict.{GraderResult, post_init}
use cc_suite.Graders.Bridge.{to_domain_result, has_clean_digest, IsIndependent, bridge_exact}
use cc_suite.Graders.Runner.{
  Grader, printable, typed, raised, shows, raises, unreadable, run_grader,
}
use cc_suite.Graders.RunnerTotality.{IsSafe, Answers, run_grader_total, run_grader_escapes}
use cc_suite.Graders.Cases.{
  CaseAttemptResult, CaseResult, attempt_state, case_post_init, case_state, lineage_complete,
  forbidden_effect_attempts, meets_threshold, blocking_eligible_grader_results, retained_attempts,
}
use cc_suite.Graders.CaseStates.{critical_case_pass_exact}
use cc_suite.Graders.Aggregate.{
  BlockingFinding, domain_counters, case_findings, threshold_findings, lineage_findings,
  effect_findings, independence_findings, critical_findings, error_findings, inconclusive_findings,
  case_needs_review, noncritical_cases, noncritical_pass_rate,
}
use cc_suite.Graders.Outcome.{AggregateOutcome, all_findings, aggregate, metrics_of, construct_all}
use cc_suite.Graders.Counters.{r1, count_rule, counter_of, counters_count_findings}
use cc_suite.Graders.Precedence.{is_r4}
use cc_suite.Graders.Green.{IsGreen, aggregate_made_exact, qualifiable-IsGreen, threshold_only_adds}

abbrev pub digest : String
digest = "aaaaaaaaaaaaaaaaaaaaaaaaaaaaaaaaaaaaaaaaaaaaaaaaaaaaaaaaaaaaaaaa"

abbrev passing : GraderResult
passing = record {
  grader_id = "g";
  grader_version = "1";
  kind = GraderKind.outcome;
  state = ResultState.pass;
  reason = "matches";
  criticality = Criticality.critical;
  evidence_ref = "run/1";
  evidence_sha256 = digest;
  error_detail = "";
  grader_family = "deterministic";
  judge_model_id = "";
  rubric_id = "";
  rubric_version = "";
  rubric_sha256 = "";
  adjudicator_identity = "";
  adjudicator_family = "";
  adjudicated_at = none;
}

abbrev failing : GraderResult
failing = record passing { state = ResultState.fail; reason = "differs" }

passing-IsIndependent : IsIndependent passing "subject"
unfolding is_truthy
passing-IsIndependent = record { family = refl; adjudicator = refl }

bridge_exact_example :
    is_ok (to_domain_result passing "tenant-zero" 1 "subject") ≡ has_clean_digest passing
unfolding nonblank is_space post_init sha256_match
bridge_exact_example =
    bridge_exact "tenant-zero" "subject" 1 passing refl refl passing-IsIndependent

-- A grader that raises.
abbrev grader : Grader
grader = record {
  grader_id = printable true (ok "g");
  grader_version = printable true (ok "1");
  grader_family = printable true (ok "deterministic");
  kind = typed GraderKind.outcome;
  criticality = typed Criticality.critical;
  judge_model_id = printable false (ok "");
  rubric_id = printable false (ok "");
  rubric_version = printable false (ok "");
  rubric_sha256 = printable false (ok "");
  graded = raised (shows "KeyError: 'x'");
}

grader-IsSafe : IsSafe grader
grader-IsSafe = record {
  grader_id = refl;
  grader_version = refl;
  grader_family = refl;
  kind = refl;
  criticality = refl;
  judge_model_id = refl;
  rubric_id = refl;
  rubric_version = refl;
  rubric_sha256 = refl;
}

run_grader_total_example : (r : GraderResult) × (run_grader grader ≡ ok r) × Answers grader.graded r
run_grader_total_example = run_grader_total grader grader-IsSafe

abbrev hostile : Grader
hostile = record grader { kind = unreadable (raises (shows "RuntimeError: str")) }

run_grader_escapes_example : run_grader hostile ≡ err (shows "RuntimeError: str")
run_grader_escapes_example =
    run_grader_escapes hostile (shows "RuntimeError: str") refl refl refl refl

abbrev attempt : CaseAttemptResult
attempt = record {
  case_id = "c";
  attempt_number = 1;
  grader_results = passing ∷ record failing { criticality = Criticality.advisory } ∷ [];
  forbidden_effect_attempted = false;
  forbidden_effect_detail = "";
  cost_usd = (0, 1);
  latency_ms = 5;
}

abbrev failed_attempt : CaseAttemptResult
failed_attempt = record attempt { attempt_number = 2; grader_results = failing ∷ [] }

abbrev pub critical_case : CaseResult
critical_case = record {
  case_id = "c";
  required = true;
  criticality = Criticality.critical;
  policy = record {
    attempts = 1;
    aggregate_rule = all_must_pass;
    min_pass_rate = none;
    sampling_config_digest = "s";
    infrastructure_retry_limit = 0;
  };
  attempts = attempt ∷ [];
}

abbrev pub failed_case : CaseResult
failed_case = record critical_case { attempts = attempt ∷ failed_attempt ∷ [] }

critical_case_pass_exact_example :
    is_pass (case_state failed_case) ≡ all (λ a. is_pass (attempt_state a)) failed_case.attempts
unfolding case_post_init nonblank is_space
critical_case_pass_exact_example = critical_case_pass_exact failed_case refl refl

abbrev pub suite_policy : SuitePolicy
suite_policy = record {
  gate_mode = GateMode.blocking;
  inconclusive_policy = InconclusivePolicy.block;
  noncritical_pass_threshold = (1, 1);
}

counters_count_findings_example :
    count_rule r1 (all_findings suite_policy "suite" "subject" (failed_case ∷ []))
    ≡ counter_of r1 InconclusivePolicy.block (domain_counters (failed_case ∷ []))
counters_count_findings_example =
    counters_count_findings r1 suite_policy "suite" "subject" (failed_case ∷ [])

aggregate_made_exact_example :
    is_ok (aggregate (failed_case ∷ []) suite_policy "suite" "1" "subject")
    ≡ (nonblank "suite" && nonblank "1" && nonblank "subject")
aggregate_made_exact_example =
    aggregate_made_exact (failed_case ∷ []) suite_policy "suite" "1" "subject"

abbrev pub green_outcome : AggregateOutcome
green_outcome = record {
  suite_id = "suite";
  suite_version = "1";
  subject_family = "subject";
  case_results = critical_case ∷ [];
  findings = [];
  requires_human_review = false;
  metrics = metrics_of (critical_case ∷ []);
  policy = suite_policy;
}

green_outcome-aggregate :
    aggregate (critical_case ∷ []) suite_policy "suite" "1" "subject" ≡ ok green_outcome
unfolding aggregate all_findings construct_all nonblank is_space case_findings threshold_findings
    lineage_findings effect_findings independence_findings critical_findings error_findings
    inconclusive_findings case_needs_review case_state lineage_complete noncritical_pass_rate
    noncritical_cases forbidden_effect_attempts meets_threshold attempt_state
    blocking_eligible_grader_results retained_attempts
green_outcome-aggregate = refl

qualifiable-IsGreen_example : All (IsGreen suite_policy "subject") (critical_case ∷ [])
unfolding case_post_init nonblank is_space
qualifiable-IsGreen_example =
    qualifiable-IsGreen (critical_case ∷ []) suite_policy "suite" "1" "subject" (refl, tt)
      green_outcome-aggregate refl

abbrev lenient : SuitePolicy
lenient = record suite_policy { gate_mode = GateMode.advisory; noncritical_pass_threshold = (0, 1) }

threshold_only_adds_example :
    (common rest_p rest_q : List BlockingFinding) × (all_findings suite_policy "suite" "subject"
        (failed_case ∷ [])
      ≡ common ++ rest_p)
    × (all_findings lenient "suite" "subject" (failed_case ∷ []) ≡ common ++ rest_q)
    × All (λ f. is_r4 f.rule ≡ true) rest_p
    × All (λ f. is_r4 f.rule ≡ true) rest_q
threshold_only_adds_example =
    threshold_only_adds (failed_case ∷ []) suite_policy lenient "suite" "subject" refl
