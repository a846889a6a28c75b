-- ===== src/Graders/Cases.antt =====
-- Attempts, their policy, and the cases that retain them (graders.py, lines 665-882).
use cc_suite.Prelude.{
  ℕ, Bool, true, false, not, ◌&&◌, ◌||◌, Option, none, some, List, [], ◌∷◌, String, str_eq, Result,
  ok, raise_if, ◌>>◌, nonblank, is_some, ltb, leb, ◌==◌, if◌then◌else◌, any, filter, flat_map,
  length, count_where, map,
}
use cc_suite.Prelude.Floats.{Floats}
use cc_suite.Domain.{
  ResultState, Criticality, Refusal, is_pass, is_fail, is_error, is_inconclusive, is_critical,
}
use cc_suite.Graders.{AttemptAggregateRule, all_must_pass, threshold}
use cc_suite.Graders.Verdict.{GraderResult, blocking_eligible}

abbrev pub is_threshold : AttemptAggregateRule → Bool
is_threshold threshold = true
is_threshold _ = false

-- `FAIL > ERROR > INCONCLUSIVE > PASS` over the verdicts given.
unfoldable pub worst_state : List GraderResult → ResultState
worst_state [] = ResultState.inconclusive
worst_state (r ∷ rs) =
    if any (λ x. is_fail x.state) (r ∷ rs)
    then ResultState.fail
    else if any (λ x. is_error x.state) (r ∷ rs)
    then ResultState.error
    else if any (λ x. is_inconclusive x.state) (r ∷ rs)
    then ResultState.inconclusive
    else ResultState.pass

-- A number stands in a list.
abbrev contains : List ℕ → ℕ → Bool
contains [] n = false
contains (m ∷ ms) n = m == n || contains ms n

abbrev has_duplicate : List ℕ → Bool
has_duplicate [] = false
has_duplicate (n ∷ ns) = contains ns n || has_duplicate ns

abbrev pub is_empty {ℓ} : {A : Type ℓ} → List A → Bool
is_empty [] = true
is_empty (x ∷ xs) = false

module _ ⦃fl : Floats⦄ where
  pub record CaseAttemptResult : Type 0 where
    pub case_id : String
    pub attempt_number : ℕ
    pub grader_results : List GraderResult
    pub forbidden_effect_attempted : Bool
    pub forbidden_effect_detail : String
    pub cost_usd : fl.Float
    pub latency_ms : ℕ

  unfoldable pub attempt_post_init : CaseAttemptResult → Result Refusal CaseAttemptResult
  attempt_post_init a = do
    raise_if (not (nonblank a.case_id)) Refusal.blank_case
    raise_if (ltb a.attempt_number 1) Refusal.attempt_below_one
    raise_if (a.forbidden_effect_attempted && not (nonblank a.forbidden_effect_detail))
        Refusal.unnamed_forbidden_effect
    ok a

  unfoldable pub blocking_results : CaseAttemptResult → List GraderResult
  blocking_results a = filter blocking_eligible a.grader_results

  -- The state of an attempt.
  unfoldable pub attempt_state : CaseAttemptResult → ResultState
  unfolding blocking_results worst_state
  attempt_state a = worst_state (blocking_results a)

  pub record AttemptPolicy : Type 0 where
    pub attempts : ℕ
    pub aggregate_rule : AttemptAggregateRule
    pub min_pass_rate : Option fl.Float
    pub sampling_config_digest : String
    pub infrastructure_retry_limit : ℕ

  -- `0.0 < rate <= 1.0`
  is_rate : Option fl.Float → Bool
  is_rate none = false
  is_rate (some r) = fl.lt fl.zero r && fl.le r fl.one

  rate_check : AttemptPolicy → Result Refusal (Unit {0})
  unfolding is_rate
  rate_check p =
      if is_threshold p.aggregate_rule
      then raise_if (not (is_rate p.min_pass_rate)) Refusal.threshold_without_rate
      else raise_if (is_some p.min_pass_rate) Refusal.rate_without_threshold

  -- A negative retry limit is no natural number.
  unfoldable pub policy_post_init : AttemptPolicy → Result Refusal AttemptPolicy
  unfolding rate_check
  policy_post_init p = do
    raise_if (ltb p.attempts 1) Refusal.no_attempts_declared
    rate_check p
    ok p

  pub record CaseResult : Type 0 where
    pub case_id : String
    pub required : Bool
    pub criticality : Criticality
    pub policy : AttemptPolicy
    pub attempts : List CaseAttemptResult

  unfoldable pub case_post_init : CaseResult → Result Refusal CaseResult
  case_post_init c = do
    raise_if (not (nonblank c.case_id)) Refusal.blank_case
    raise_if (is_empty c.attempts) Refusal.no_attempt_retained
    raise_if (any (λ a. not (str_eq a.case_id c.case_id)) c.attempts) Refusal.foreign_attempt
    raise_if (has_duplicate (map (λ a. a.attempt_number) c.attempts))
        Refusal.repeated_attempt_number
    raise_if (is_critical c.criticality && is_threshold c.policy.aggregate_rule)
        Refusal.critical_on_average
    raise_if (is_critical c.criticality && not c.required) Refusal.critical_not_required
    ok c

  unfoldable pub retained_attempts : CaseResult → ℕ
  retained_attempts c = length c.attempts

  -- Passes over every retained attempt.
  unfoldable pub pass_rate : CaseResult → fl.Float
  pass_rate c =
      fl.ratio (count_where (λ a. is_pass (attempt_state a)) c.attempts) (length c.attempts)

  unfoldable pub failed_attempts : CaseResult → List CaseAttemptResult
  failed_attempts c = filter (λ a. is_fail (attempt_state a)) c.attempts

  unfoldable pub errored_attempts : CaseResult → List CaseAttemptResult
  errored_attempts c = filter (λ a. is_error (attempt_state a)) c.attempts

  unfoldable pub inconclusive_attempts : CaseResult → List CaseAttemptResult
  inconclusive_attempts c = filter (λ a. is_inconclusive (attempt_state a)) c.attempts

  unfoldable pub forbidden_effect_attempts : CaseResult → List CaseAttemptResult
  forbidden_effect_attempts c = filter (λ a. a.forbidden_effect_attempted) c.attempts

  unfoldable pub lineage_complete : CaseResult → Bool
  unfolding retained_attempts
  lineage_complete c = leb c.policy.attempts (retained_attempts c)

  -- `self.policy.min_pass_rate or 1.0`: no rate and the rate zero are the rate one.
  rate_or_one : Option fl.Float → fl.Float
  rate_or_one none = fl.one
  rate_or_one (some r) = if fl.le r fl.zero && fl.le fl.zero r then fl.one else r

  -- `pass_rate >= rate`
  meets : AttemptAggregateRule → CaseResult → Bool
  unfolding failed_attempts pass_rate rate_or_one
  meets all_must_pass c = is_empty (failed_attempts c)
  meets threshold c = fl.le (rate_or_one c.policy.min_pass_rate) (pass_rate c)

  unfoldable pub meets_threshold : CaseResult → Bool
  unfolding meets
  meets_threshold c = meets c.policy.aggregate_rule c

  unfoldable pub case_state : CaseResult → ResultState
  unfolding meets_threshold errored_attempts inconclusive_attempts
  case_state c =
      if not (meets_threshold c)
      then ResultState.fail
      else if not (is_empty (errored_attempts c))
      then ResultState.error
      else if not (is_empty (inconclusive_attempts c))
      then ResultState.inconclusive
      else ResultState.pass

  -- The verdicts of every attempt that may block.
  unfoldable pub blocking_eligible_grader_results : CaseResult → List GraderResult
  unfolding blocking_results
  blocking_eligible_grader_results c = flat_map blocking_results c.attempts
