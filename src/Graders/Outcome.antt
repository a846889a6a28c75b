-- ===== src/Graders/Outcome.antt =====
-- The metrics and the outcome of the aggregate (graders.py, lines 915-989 and 1015-1157).
use cc_suite.Prelude.{
  ℕ, Bool, true, false, not, ◌&&◌, ◌||◌, Option, none, some, List, [], ◌∷◌, ◌++◌, String, str_eq,
  Result, ok, raise_if, ◌>>◌, nonblank, if◌then◌else◌, any, flat_map, length, count_where, sum_map,
}
use cc_suite.Prelude.Floats.{Floats}
use cc_suite.Domain.{
  ResultState, Criticality, Refusal, is_pass, is_fail, is_error, is_inconclusive, is_critical,
  is_noncritical,
}
use cc_suite.Domain.Waivers.{SuitePolicy}
use cc_suite.Graders.Cases.{
  CaseAttemptResult, CaseResult, attempt_state, retained_attempts, pass_rate,
  forbidden_effect_attempts, case_state,
}
use cc_suite.Graders.Aggregate.{
  Counters, Census, BlockingFinding, finding_post_init, case_findings, case_needs_review,
  noncritical_pass_rate, threshold_findings, domain_counters,
}

module _ ⦃fl : Floats⦄ where
  -- `worst_observed_failure`: the first case of the level that did not pass.
  pub record Failure : Type 0 where
    pub case_id : String
    pub state : ResultState
    pub level : Criticality

  first_failure : (Criticality → Bool) → Criticality → List CaseResult → Option Failure
  first_failure at level [] = none
  first_failure at level (c ∷ cs) =
      if at c.criticality && not (is_pass (case_state c))
      then some (record { case_id = c.case_id; state = case_state c; level = level })
      else first_failure at level cs

  or_else : {A : Type 0} → Option A → Option A → Option A
  or_else none y = y
  or_else (some x) y = some x

  unfoldable pub worst_failure : List CaseResult → Option Failure
  unfolding first_failure or_else
  worst_failure cases =
      or_else (first_failure is_critical Criticality.critical cases)
        (first_failure is_noncritical Criticality.noncritical cases)

  -- A dictionary's display: a later entry of a key takes the place of an earlier one.
  put : String → fl.Float → List (String × fl.Float) → List (String × fl.Float)
  put k v [] = (k, v) ∷ []
  put k v ((j, w) ∷ rest) = if str_eq j k then (j, v) ∷ rest else (j, w) ∷ put k v rest

  rates : List (String × fl.Float) → List CaseResult → List (String × fl.Float)
  unfolding put
  rates acc [] = acc
  rates acc (c ∷ cs) = rates (put c.case_id (pass_rate c) acc) cs

  costs : fl.Float → List CaseAttemptResult → fl.Float
  costs total [] = total
  costs total (a ∷ rest) = costs (fl.add total a.cost_usd) rest

  rate_or_full : Option fl.Float → fl.Float
  rate_or_full none = fl.one
  rate_or_full (some r) = r

  pub record Metrics : Type 0 where
    pub case_count : ℕ
    pub total_retained_attempts : ℕ
    pub attempt_state_census : Census
    pub per_case_pass_rate : List (String × fl.Float)
    pub critical_failure_count : ℕ
    pub error_case_count : ℕ
    pub inconclusive_case_count : ℕ
    pub forbidden_effect_attempt_count : ℕ
    pub noncritical_case_pass_rate : fl.Float
    pub required_noncritical_case_pass_rate : fl.Float
    pub blocking_counters : Counters
    pub worst_observed_failure : Option Failure
    pub total_cost_usd : fl.Float

  abbrev in_state : (ResultState → Bool) → List CaseResult → ℕ
  in_state p cases = sum_map (λ c. count_where (λ a. p (attempt_state a)) c.attempts) cases

  unfoldable pub metrics_of : List CaseResult → Metrics
  unfolding worst_failure rates costs rate_or_full
  metrics_of cases = record {
    case_count = length cases;
    total_retained_attempts = sum_map retained_attempts cases;
    attempt_state_census = record {
      pass = in_state is_pass cases;
      fail = in_state is_fail cases;
      error = in_state is_error cases;
      inconclusive = in_state is_inconclusive cases;
    };
    per_case_pass_rate = rates [] cases;
    critical_failure_count =
        count_where (λ c. is_critical c.criticality && is_fail (case_state c)) cases;
    error_case_count = count_where (λ c. is_error (case_state c)) cases;
    inconclusive_case_count = count_where (λ c. is_inconclusive (case_state c)) cases;
    forbidden_effect_attempt_count = sum_map (λ c. length (forbidden_effect_attempts c)) cases;
    noncritical_case_pass_rate = rate_or_full (noncritical_pass_rate cases false);
    required_noncritical_case_pass_rate = rate_or_full (noncritical_pass_rate cases true);
    blocking_counters = domain_counters cases;
    worst_observed_failure = worst_failure cases;
    total_cost_usd = costs fl.zero (flat_map (λ c. c.attempts) cases);
  }

  pub record AggregateOutcome : Type 0 where
    pub suite_id : String
    pub suite_version : String
    pub subject_family : String
    pub case_results : List CaseResult
    pub findings : List BlockingFinding
    pub requires_human_review : Bool
    pub metrics : Metrics
    pub policy : SuitePolicy

  abbrev pub is_empty : List BlockingFinding → Bool
  is_empty [] = true
  is_empty (f ∷ fs) = false

  abbrev pub qualifiable : AggregateOutcome → Bool
  qualifiable o = is_empty o.findings

  find_state : String → List CaseResult → Option ResultState
  find_state case_id [] = none
  find_state case_id (c ∷ cs) =
      if str_eq c.case_id case_id then some (case_state c) else find_state case_id cs

  unfoldable pub outcome_case_state : AggregateOutcome → String → Option ResultState
  unfolding find_state
  outcome_case_state o case_id = find_state case_id o.case_results

  -- Every finding of the loop and R4's, in the order in which they are appended.
  unfoldable pub all_findings :
      SuitePolicy → String → String → List CaseResult → List BlockingFinding
  all_findings policy suite_id subject_family cases =
      flat_map (case_findings policy suite_id subject_family) cases
      ++ threshold_findings policy suite_id cases

  -- The constructor of a finding raises at the first one that names no requirement.
  unfoldable pub construct_all : List BlockingFinding → Result Refusal (Unit {0})
  construct_all [] = ok tt
  construct_all (f ∷ rest) = let later = construct_all rest in do finding_post_init f; later

  unfoldable pub aggregate :
      List CaseResult → SuitePolicy → String → String → String → Result Refusal AggregateOutcome
  aggregate cases policy suite_id suite_version subject_family = do
    raise_if (not (nonblank suite_id) || not (nonblank suite_version)) Refusal.blank_suite
    raise_if (not (nonblank subject_family)) Refusal.blank_subject_family
    construct_all (all_findings policy suite_id subject_family cases)
    ok (record {
      suite_id = suite_id;
      suite_version = suite_version;
      subject_family = subject_family;
      case_results = cases;
      findings = all_findings policy suite_id subject_family cases;
      requires_human_review = any (case_needs_review policy) cases;
      metrics = metrics_of cases;
      policy = policy;
    })
