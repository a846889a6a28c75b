-- ===== src/Authority/Tests.antt =====
-- The theorems on authority.py at a concrete request.
use cc_suite.Prelude.{
  ◌≡◌, refl, true, false, none, some, Option, [], ◌∷◌, String, ok, all, All, str_eq,
  sha256_fullmatch, is_truthy, if◌then◌else◌,
}
use cc_suite.Domain.{DateTime}
use cc_suite.Authority.Types.{
  ActionClass, ConsequenceTier, EvidenceReceipt, GateRequest, GateDecision, Libraries, Receipts,
}
use cc_suite.Authority.Trust.{
  TrustedEvidenceIssuer, Issuers, verified_receipts, verify_all, IsTrusted,
  verified_receipts-IsTrusted,
}
use cc_suite.Authority.Matrix.{registry, row, evidence, tenant_match_check}
use cc_suite.Authority.Gate.{
  evaluate_action, run_checks, passes, is_forbidden, expected_matrix, allowed_exact,
  allowed_stays_in_tenant,
}
use cc_suite.Authority.Require.{ScribeEscalation, require_action, required_action_is_authorized}

abbrev time_of : String → Option DateTime
time_of s =
    if str_eq s "start"
    then some (record { instant = 10; is_aware = true })
    else if str_eq s "end"
    then some (record { instant = 20; is_aware = true })
    else none

-- One intent, one key whose signature is the text "signed", and two times.
instance abbrev plain : Libraries
plain = record {
  PublicKey = String;
  intent_sha256 = λ r. "intent";
  verifies = λ k r. str_eq r.signature k;
  fromisoformat = time_of;
  decision_digest = λ r checked reason. reason;
  matrix_sha256 = expected_matrix;
}

abbrev jail : EvidenceReceipt
jail = record {
  check_id = "storage_jail";
  intent_sha256 = "intent";
  verdict = "pass";
  reason = "";
  artifact_ref = "run/1";
  artifact_sha256 = "aaaaaaaaaaaaaaaaaaaaaaaaaaaaaaaaaaaaaaaaaaaaaaaaaaaaaaaaaaaaaaaa";
  issuer = "kernel";
  issued_at = "start";
  expires_at = "end";
  signature = "signed";
}

abbrev kernel_issuer : TrustedEvidenceIssuer
kernel_issuer = record {
  issuer = "kernel";
  family = "deterministic";
  public_key = "signed";
  allowed_checks = "storage_jail" ∷ [];
}

abbrev issuers : Issuers
issuers = ("kernel", kernel_issuer) ∷ []

abbrev reading : GateRequest
reading = record {
  action = ActionClass.read_tenant_data;
  actor_tenant_id = "t1";
  request_tenant_id = "t1";
  actor_role = "cos";
  actor_family = "a";
  target = "ledger";
  objective_id = "";
  worker_identity = "";
  idempotency_key = "";
  why_ref = "";
  evidence = jail ∷ [];
}

abbrev verified : Receipts
verified = ("storage_jail", jail) ∷ []

abbrev authorized : GateDecision
authorized = record {
  allowed = true;
  action = ActionClass.read_tenant_data;
  tier = ConsequenceTier.low;
  reason = "authorized";
  checked = "tenant_match" ∷ "storage_jail" ∷ [];
  decision_sha256 = "authorized";
  escalate_to_scribe = false;
}

reading-verified : verified_receipts issuers reading 15 ≡ ok verified
unfolding verified_receipts verify_all sha256_fullmatch is_truthy
reading-verified = refl

reading-authorized : evaluate_action reading issuers 15 ≡ ok authorized
unfolding evaluate_action run_checks verified_receipts verify_all sha256_fullmatch is_truthy
    registry row evidence tenant_match_check
reading-authorized = refl

abbrev no_escalation : GateRequest → GateDecision → Option ScribeEscalation
no_escalation request d = none

reading-required : require_action reading issuers 15 no_escalation (λ e. true) ≡ ok authorized
unfolding require_action evaluate_action run_checks verified_receipts verify_all sha256_fullmatch
    is_truthy registry row evidence tenant_match_check
reading-required = refl

verified_receipts-IsTrusted_example : All (IsTrusted issuers reading 15) verified
verified_receipts-IsTrusted_example =
    verified_receipts-IsTrusted issuers reading 15 verified reading-verified

allowed_exact_example :
    (receipts : Receipts) × (verified_receipts issuers reading 15 ≡ ok receipts)
    × (true ≡ all (passes reading receipts) (row reading.action).1)
allowed_exact_example = allowed_exact reading issuers 15 authorized reading-authorized

allowed_stays_in_tenant_example :
    (is_forbidden (row reading.action).0 ≡ false) × (str_eq "t1" "t1" ≡ true)
allowed_stays_in_tenant_example =
    allowed_stays_in_tenant reading issuers 15 authorized reading-authorized refl

required_action_is_authorized_example :
    (evaluate_action reading issuers 15 ≡ ok authorized)
    × (authorized.allowed ≡ true)
    × ((receipts : Receipts) × (verified_receipts issuers reading 15 ≡ ok receipts)
        × (all (passes reading receipts) (row reading.action).1 ≡ true))
    × (is_forbidden (row reading.action).0 ≡ false)
    × (str_eq "t1" "t1" ≡ true)
required_action_is_authorized_example =
    required_action_is_authorized reading issuers 15 no_escalation (λ e. true) authorized
      reading-required
