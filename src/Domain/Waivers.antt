-- ===== src/Domain/Waivers.antt =====
-- `EvalWaiver` and `SuitePolicy` (domain.py, lines 519-556).
use cc_suite.Prelude.{
  ℕ, not, ◌&&◌, Option, String, Result, ok, raise_if, ◌>>◌, nonblank, is_truthy, is_some,
}
use cc_suite.Prelude.Floats.{Floats}
use cc_suite.Domain.{DateTime, GateMode, InconclusivePolicy, Fault}
use cc_suite.Domain.Runs.{require_tenant}

pub record EvalWaiver : Type 0 where
  pub id : ℕ
  pub tenant_id : String
  pub target_fingerprint : String
  pub failed_suite_id : String
  pub failed_case_id : String
  pub failed_grader_id : String
  pub approver_identity : String
  pub rationale : String
  pub evidence_ref : String
  pub expires_at : Option DateTime
  pub release_bound_to : String

unfoldable pub validate : EvalWaiver → Result Fault EvalWaiver
validate w = do
  require_tenant w.tenant_id
  raise_if
      (not
        (is_truthy w.failed_suite_id && is_truthy w.failed_case_id && is_truthy w.failed_grader_id))
      Fault.incomplete_requirement
  raise_if (not (nonblank w.approver_identity && nonblank w.rationale && nonblank w.evidence_ref))
      Fault.incomplete_approval
  raise_if (not (is_some w.expires_at) && not (nonblank w.release_bound_to)) Fault.unbounded_waiver
  ok w

module _ ⦃fl : Floats⦄ where
  pub record SuitePolicy : Type 0 where
    pub gate_mode : GateMode
    pub inconclusive_policy : InconclusivePolicy
    pub noncritical_pass_threshold : fl.Float
