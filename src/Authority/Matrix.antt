-- ===== src/Authority/Matrix.antt =====
-- The checks and the matrix of the authority (authority.py, lines 218-380).
use Prim.Native.Char.{code}
use Prim.Native.String.count
use Prim.Native.String as Text
use cc_suite.Prelude.{
  ℕ, Bool, true, false, not, ◌&&◌, Option, none, some, List, [], ◌∷◌, String, str_eq, is_truthy,
  leb, ◌==◌, if◌then◌else◌,
}
use cc_suite.Authority.Types.{
  ActionClass, ConsequenceTier, EvidenceReceipt, GateRequest, get, member, Receipts,
}

-- Whether a check passes, and the reason where it does not.
abbrev pub Check : Type 0
Check = GateRequest → Receipts → Bool × String

-- `receipt.reason or failure`
abbrev reason_or : String → String → String
reason_or reason failure = if is_truthy reason then reason else failure

-- What a receipt that may be missing says to a check.
abbrev evidence_of : String → Option EvidenceReceipt → Bool × String
evidence_of failure none = (false, failure)
evidence_of failure (some r) =
    if not (str_eq r.verdict "pass") then (false, reason_or r.reason failure) else (true, failure)

-- `_evidence`
unfoldable pub evidence : String → String → Check
evidence check_id failure request receipts = evidence_of failure (get check_id receipts)

unfoldable pub tenant_match_check : Check
tenant_match_check request receipts = (
  is_truthy request.actor_tenant_id && str_eq request.actor_tenant_id request.request_tenant_id,
  "actor tenant does not match requested tenant",
)

-- `len(text)`, in characters
abbrev size : String → ℕ
size s = Text.count s

unfoldable pub idempotency_check : Check
idempotency_check request receipts = (
  is_truthy request.idempotency_key && leb 16 (size request.idempotency_key),
  "stable idempotency key is missing",
)

-- `_role`
unfoldable pub role : List String → String → Check
role allowed reason request receipts = (member request.actor_role allowed, reason)

unfoldable pub tenant_zero_check : Check
tenant_zero_check request receipts = (
  str_eq request.actor_tenant_id request.request_tenant_id
      && str_eq request.request_tenant_id "tenant-zero",
  "exceptional fleet action requires tenant-zero identity",
)

-- `text.startswith(prefix)`
abbrev pub starts_with : String → String → Bool
starts_with text String.[] = true
starts_with String.[] (String.◌∷◌ c prefix) = false
starts_with (String.◌∷◌ d text) (String.◌∷◌ c prefix) = code d == code c && starts_with text prefix

unfoldable pub why_check : Check
why_check request receipts =
    (starts_with request.why_ref "docs/brain/", "compiled policy WHY link is missing")

abbrev classified : Option EvidenceReceipt → Bool × String
classified none = (false, "typed external-classifier receipt is missing")
classified (some r) =
    if str_eq r.verdict "hold"
    then (false, reason_or r.reason "external classifier returned HOLD")
    else if not (str_eq r.verdict "pass")
    then (false, "external classifier did not PASS")
    else (true, "external classifier did not PASS")

unfoldable pub classifier_check : Check
classifier_check request receipts = classified (get "classifier" receipts)

unfoldable pub forbidden_check : Check
forbidden_check request receipts = (false, "the kernel has no authority path for this action class")

-- `_CHECKS`
unfoldable pub registry : List (String × Check)
registry =
    ("tenant_match", tenant_match_check)
    ∷ ("storage_jail", evidence "storage_jail" "tenant storage jail did not pass")
    ∷ ("role_scope", evidence "role_scope" "role scope did not pass")
    ∷ ("spend", evidence "spend" "spend ceiling did not pass")
    ∷ ("lease", evidence "lease" "active ownership lease is missing")
    ∷ ("idempotency", idempotency_check)
    ∷ ("tool_permission", evidence "tool_permission" "tool permission is missing")
    ∷ ("credential_scope", evidence "credential_scope" "credential scope did not pass")
    ∷ ("source_truth", evidence "source_truth" "source-of-truth check is missing")
    ∷ ("notify_role", role ("notify_leg" ∷ []) "customer send requires notify_leg")
    ∷ ("approval", evidence "approval" "approval is missing")
    ∷ ("content", evidence "content" "content gate did not pass")
    ∷ ("rate_limit", evidence "rate_limit" "rate limit did not pass")
    ∷ ("independent_verify", evidence "independent_verify" "independent verification did not pass")
    ∷ ("money_role", role ("domain_engine" ∷ []) "money artifact requires domain_engine")
    ∷ ("quarantine", evidence "quarantine" "quarantine classification is incomplete")
    ∷ ("r7_basis", evidence "r7_basis" "external ground-truth basis is missing")
    ∷ ("penny_reconcile", evidence "penny_reconcile" "penny reconciliation did not pass")
    ∷ ("browser_role", role ("browser_executor" ∷ []) "upload requires browser_executor")
    ∷ ("mode_declared", evidence "mode_declared" "dry-run/live mode is missing")
    ∷ ("deny_layers", evidence "deny_layers" "browser deny layers did not pass")
    ∷ ("evidence_gate", evidence "evidence_gate" "evidence gate did not pass")
    ∷ ("per_run_go", evidence "per_run_go" "founder/customer per-run GO is missing")
    ∷ ("cmcv", evidence "cmcv" "CMCV review is not CLEAN")
    ∷ ("tenant_zero", tenant_zero_check)
    ∷ (
      "maintenance_role",
      role ("kernel_maintenance" ∷ []) "credential change requires maintenance",
    )
    ∷ ("founder_auth", evidence "founder_auth" "founder authorization is missing")
    ∷ ("secret_manager", evidence "secret_manager" "secret-manager write is missing")
    ∷ ("rotation", evidence "rotation" "credential rotation record is missing")
    ∷ ("prod_role", role ("ccto" ∷ "ccde" ∷ []) "prod change requires ccto or ccde")
    ∷ ("rollback", evidence "rollback" "rollback is not proven")
    ∷ ("ci", evidence "ci" "required CI is not green")
    ∷ ("review_3_plus_3", evidence "review_3_plus_3" "3+3 review is incomplete")
    ∷ (
      "compiled_controls",
      evidence "compiled_controls" "compiled-control production gate did not pass",
    )
    ∷ ("policy_role", role ("scribe" ∷ "ccto" ∷ []) "policy change requires scribe or ccto")
    ∷ ("version_bump", evidence "version_bump" "policy version was not bumped")
    ∷ ("why", why_check)
    ∷ ("kill_role", role ("scribe" ∷ "cos" ∷ []) "kill or respawn requires scribe or cos")
    ∷ ("lease_consent", evidence "lease_consent" "lease holder neither consented nor expired")
    ∷ ("classifier", classifier_check)
    ∷ ("founder_role", role ("founder" ∷ []) "spend change is founder-only")
    ∷ ("hmac_arm", evidence "hmac_arm" "HMAC arm ceremony is invalid")
    ∷ ("attestation", evidence "attestation" "attestation record is missing")
    ∷ ("forbidden", forbidden_check)
    ∷ []

-- `_MATRIX`
unfoldable pub row : ActionClass → ConsequenceTier × List String
row ActionClass.read_tenant_data = (ConsequenceTier.low, "tenant_match" ∷ "storage_jail" ∷ [])
row ActionClass.draft_compute = (ConsequenceTier.low, "tenant_match" ∷ "role_scope" ∷ "spend" ∷ [])
row ActionClass.write_tenant_state =
    (ConsequenceTier.medium, "tenant_match" ∷ "role_scope" ∷ "spend" ∷ "lease" ∷ "idempotency" ∷ [])
row ActionClass.external_read = (
  ConsequenceTier.medium,
  "tenant_match" ∷ "role_scope" ∷ "tool_permission" ∷ "credential_scope" ∷ "source_truth" ∷ [],
)
row ActionClass.notify_customer = (
  ConsequenceTier.high,
  "tenant_match" ∷ "notify_role" ∷ "approval" ∷ "content" ∷ "rate_limit" ∷ "independent_verify"
      ∷ [],
)
row ActionClass.money_artifact = (
  ConsequenceTier.high,
  "tenant_match" ∷ "money_role" ∷ "quarantine" ∷ "r7_basis" ∷ "penny_reconcile"
      ∷ "independent_verify" ∷ [],
)
row ActionClass.upload_customer_system = (
  ConsequenceTier.high,
  "tenant_match" ∷ "browser_role" ∷ "mode_declared" ∷ "deny_layers" ∷ "evidence_gate" ∷ "per_run_go"
      ∷ "cmcv" ∷ [],
)
row ActionClass.submit_irreversible = (ConsequenceTier.forbidden, "forbidden" ∷ [])
row ActionClass.credential_change = (
  ConsequenceTier.exceptional,
  "tenant_zero" ∷ "maintenance_role" ∷ "founder_auth" ∷ "secret_manager" ∷ "rotation"
      ∷ "independent_verify" ∷ [],
)
row ActionClass.prod_change = (
  ConsequenceTier.exceptional,
  "tenant_zero" ∷ "prod_role" ∷ "founder_auth" ∷ "rollback" ∷ "ci" ∷ "review_3_plus_3"
      ∷ "compiled_controls" ∷ [],
)
row ActionClass.policy_change = (
  ConsequenceTier.exceptional,
  "tenant_zero" ∷ "policy_role" ∷ "founder_auth" ∷ "version_bump" ∷ "why" ∷ "independent_verify"
      ∷ [],
)
row ActionClass.kill_respawn =
    (ConsequenceTier.high, "tenant_zero" ∷ "kill_role" ∷ "lease_consent" ∷ "classifier" ∷ [])
row ActionClass.spend_change =
    (ConsequenceTier.exceptional, "tenant_zero" ∷ "founder_role" ∷ "hmac_arm" ∷ "attestation" ∷ [])
row ActionClass.cross_tenant = (ConsequenceTier.forbidden, "forbidden" ∷ [])
