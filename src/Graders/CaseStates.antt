-- ===== src/Graders/CaseStates.antt =====
-- What the state of an attempt, and of a case, says of the verdicts under it.
use cc_suite.Prelude.{◌≡◌, refl, Bool, not, ◌&&◌, ◌||◌, List, [], ◌∷◌, ok, any, all, filter, arith}
use cc_suite.Prelude.Floats.{Floats}
use cc_suite.Domain.{Criticality, is_pass, is_fail, is_error, is_inconclusive}
use cc_suite.Graders.{all_must_pass}
use cc_suite.Graders.Verdict.{GraderResult, blocking_eligible}
use cc_suite.Graders.Cases.{
  CaseAttemptResult, CaseResult, worst_state, attempt_state, case_post_init, case_state,
  failed_attempts, errored_attempts, inconclusive_attempts, is_empty,
}

-- A verdict counts, and passes.
abbrev pub passes_if_blocking : GraderResult → Bool
passes_if_blocking r = not (blocking_eligible r) || is_pass r.state

not-any-all :
    (rs : List GraderResult)
    → (not (any (λ r. is_fail r.state) rs)
        && not (any (λ r. is_error r.state) rs)
        && not (any (λ r. is_inconclusive r.state) rs))
      ≡ all (λ r. is_pass r.state) rs
not-any-all [] = refl
not-any-all (r ∷ rs) = ground (arith, not-any-all rs)

is_pass-worst_state :
    (rs : List GraderResult)
    → is_pass (worst_state rs) ≡ (not (is_empty rs) && all (λ r. is_pass r.state) rs)
unfolding worst_state
is_pass-worst_state [] = refl
is_pass-worst_state (r ∷ rs) = ground (arith, not-any-all (r ∷ rs))

filter-empty : {A : Type 0} (p : A → Bool) (xs : List A) → not (is_empty (filter p xs)) ≡ any p xs
filter-empty p [] = refl
filter-empty p (x ∷ xs) = ground (arith, filter-empty p xs)

all-filter :
    (rs : List GraderResult)
    → all (λ r. is_pass r.state) (filter blocking_eligible rs) ≡ all passes_if_blocking rs
all-filter [] = refl
all-filter (r ∷ rs) = ground (arith, all-filter rs)

module _ ⦃fl : Floats⦄ where
  -- An attempt passes exactly when it has a verdict that may block and every such verdict passes:
  -- advisory verdicts neither certify it nor stop it.
  pub attempt_pass_exact :
      (a : CaseAttemptResult)
      → is_pass (attempt_state a)
        ≡ (any blocking_eligible a.grader_results && all passes_if_blocking a.grader_results)
  unfolding attempt_state
  attempt_pass_exact a =
      rw (is_pass-worst_state (filter blocking_eligible a.grader_results), filter-empty, all-filter)

  no_failure-all :
      (xs : List CaseAttemptResult)
      → (is_empty (filter (λ a. is_fail (attempt_state a)) xs)
          && is_empty (filter (λ a. is_error (attempt_state a)) xs)
          && is_empty (filter (λ a. is_inconclusive (attempt_state a)) xs))
        ≡ all (λ a. is_pass (attempt_state a)) xs
  no_failure-all [] = refl
  no_failure-all (a ∷ xs) = ground (arith, no_failure-all xs)

  case_post_init-rule :
      (c : CaseResult)
      → case_post_init c ≡ ok c
      → c.criticality ≡ Criticality.critical
      → c.policy.aggregate_rule ≡ all_must_pass
  unfolding case_post_init
  case_post_init-rule c h k = ground arith

  -- A critical case that its constructor accepts passes exactly when every attempt that it retains
  -- passes: no average and no retry hides one that did not.
  pub critical_case_pass_exact :
      (c : CaseResult)
      → case_post_init c ≡ ok c
      → c.criticality ≡ Criticality.critical
      → is_pass (case_state c) ≡ all (λ a. is_pass (attempt_state a)) c.attempts
  unfolding case_state failed_attempts errored_attempts inconclusive_attempts
  critical_case_pass_exact c h k =
      ground (arith, case_post_init-rule c h k, no_failure-all c.attempts)
