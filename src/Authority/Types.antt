-- ===== src/Authority/Types.antt =====
-- The data of the authority (authority.py, lines 33-110). Digests, signatures and the ISO reading of a
-- time are parameters.
use cc_suite.Prelude.{
  Bool, true, false, Option, none, some, List, [], ◌∷◌, String, str_eq, if◌then◌else◌,
}
use cc_suite.Domain.{DateTime}

pub data ActionClass : Type 0 where
  read_tenant_data draft_compute write_tenant_state external_read notify_customer : ActionClass
  money_artifact upload_customer_system submit_irreversible credential_change : ActionClass
  prod_change policy_change kill_respawn spend_change cross_tenant : ActionClass

pub data ConsequenceTier : Type 0 where
  low medium high exceptional forbidden : ConsequenceTier

pub record EvidenceReceipt : Type 0 where
  pub check_id : String
  pub intent_sha256 : String
  pub verdict : String
  pub reason : String
  pub artifact_ref : String
  pub artifact_sha256 : String
  pub issuer : String
  pub issued_at : String
  pub expires_at : String
  pub signature : String

pub record GateRequest : Type 0 where
  pub action : ActionClass
  pub actor_tenant_id : String
  pub request_tenant_id : String
  pub actor_role : String
  pub actor_family : String
  pub target : String
  pub objective_id : String
  pub worker_identity : String
  pub idempotency_key : String
  pub why_ref : String
  pub evidence : List EvidenceReceipt

pub record GateDecision : Type 0 where
  pub allowed : Bool
  pub action : ActionClass
  pub tier : ConsequenceTier
  pub reason : String
  pub checked : List String
  pub decision_sha256 : String
  pub escalate_to_scribe : Bool

-- What a `PolicyIntegrityError` or a `KeyError` says, and the denial of an action.
pub data Denial : Type 0 where
  unpinned_matrix unknown_check : Denial
  duplicate_evidence untrusted_issuer other_intent bad_artifact bad_timestamp : Denial
  not_currently_valid same_family bad_signature unbound_escalation : Denial
  denied : GateDecision → Denial

pub record Libraries : Type 1 where
  pub PublicKey : Type 0
  pub intent_sha256 : GateRequest → String
  -- `public_key.verify(receipt.signature, _receipt_payload(receipt))` does not raise
  pub verifies : PublicKey → EvidenceReceipt → Bool
  -- `datetime.fromisoformat`, or `none` where it raises
  pub fromisoformat : String → Option DateTime
  pub decision_digest : GateRequest → List String → String → String
  pub matrix_sha256 : String

-- `key in mapping` and `mapping.get(key)`
abbrev pub get {ℓ} : {A : Type ℓ} → String → List (String × A) → Option A
get key [] = none
get key ((k, a) ∷ rest) = if str_eq k key then some a else get key rest

abbrev pub member : String → List String → Bool
member x [] = false
member x (y ∷ ys) = if str_eq y x then true else member x ys

abbrev pub Receipts : Type 0
Receipts = List (String × EvidenceReceipt)
