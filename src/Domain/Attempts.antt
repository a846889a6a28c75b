-- ===== src/Domain/Attempts.antt =====
-- `EvalCaseAttempt`, and the check that no failure was left out (domain.py, lines 250-298 and 567).
use cc_suite.Prelude.{
  ℕ, Bool, true, false, not, ◌&&◌, Option, List, [], ◌∷◌, String, Result, ok, raise_if, ◌>>◌,
  nonblank, ltb, is_some,
}
use cc_suite.Domain.{ResultState, is_error, Fault}
use cc_suite.Domain.Runs.{require_tenant}

pub record EvalCaseAttempt : Type 0 where
  pub tenant_id : String
  pub case_id : String
  pub attempt_number : ℕ
  pub forbidden_effect_attempts : ℕ
  pub result : ResultState
  pub counted_in_aggregate : Bool
  pub exclusion_reason : String
  pub retry_of_attempt_id : Option ℕ

-- The checks on an attempt that is left out of the aggregate, and on one that is not.
exclusion : Bool → EvalCaseAttempt → Result Fault (Unit {0})
exclusion false a = do
  raise_if (not (is_error a.result)) Fault.discarded_result
  raise_if (not (nonblank a.exclusion_reason)) Fault.unexplained_exclusion
exclusion true a = raise_if (nonblank a.exclusion_reason) Fault.counted_with_exclusion

unfoldable pub validate : EvalCaseAttempt → Result Fault (Unit {0})
unfolding exclusion
validate a = do
  require_tenant a.tenant_id
  raise_if (ltb a.attempt_number 1) Fault.attempt_number_below_one
  raise_if (ltb 1 a.attempt_number && not (is_some a.retry_of_attempt_id))
      Fault.retry_without_predecessor
  exclusion a.counted_in_aggregate a

-- A loop of `validate` that stops at the first fault.
unfoldable pub assert_no_discarded_failures : List EvalCaseAttempt → Result Fault (Unit {0})
unfolding validate
assert_no_discarded_failures [] = ok tt
assert_no_discarded_failures (a ∷ rest) =
    let later = assert_no_discarded_failures rest in do validate a; later
