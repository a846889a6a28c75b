-- ===== src/Authority/Gate.antt =====
-- `evaluate_action` (authority.py, lines 394-447), and what an allowed action has passed.
use cc_suite.Prelude.{
  ℕ, ◌≡◌, refl, sym, ◌∙◌, Bool, true, false, not, ◌&&◌, Option, none, some, List, [], ◌∷◌, ◌++◌,
  String, str_eq, Result, ok, err, raise_if, ◌>>=◌, ◌>>◌, is_truthy, if◌then◌else◌, all,
  raise_if-ok, Bool-cases, inl, inr,
}
use cc_suite.Authority.Types.{
  ActionClass, ConsequenceTier, EvidenceReceipt, GateRequest, GateDecision, Denial, Libraries, get,
  Receipts,
}
use cc_suite.Authority.Trust.{Issuers, verified_receipts}
use cc_suite.Authority.Matrix.{
  Check, registry, row, tenant_match_check, tenant_zero_check, forbidden_check,
}

-- The digest that the matrix is pinned to.
abbrev pub expected_matrix : String
expected_matrix = "1e7323ef2c5cecd661ed03d575c3b494518e985c6e4fa127f750badf32844c7b"

abbrev held : Option EvidenceReceipt → Bool
held none = false
held (some r) = str_eq r.verdict "hold"

module _ ⦃lib : Libraries⦄ where
  -- The test of the matrix's digest. The sets of actions and of checks are those of the source.
  abbrev assert_policy_integrity : Result Denial (Unit {0})
  assert_policy_integrity =
      raise_if (not (str_eq lib.matrix_sha256 expected_matrix)) Denial.unpinned_matrix

  abbrev decide : GateRequest → Bool → String → List String → Bool → GateDecision
  decide request allowed reason checked hold = record {
    allowed = allowed;
    action = request.action;
    tier = (row request.action).0;
    reason = reason;
    checked = checked;
    decision_sha256 = lib.decision_digest request checked reason;
    escalate_to_scribe = hold;
  }

  -- `_CHECKS[check_id](request, receipts)`
  abbrev run_check : Option Check → GateRequest → Receipts → Result Denial (Bool × String)
  run_check none request receipts = err Denial.unknown_check
  run_check (some check) request receipts = ok (check request receipts)

  -- The loop over the checks of the row, with those that were run so far.
  unfoldable pub run_checks :
      GateRequest → Receipts → Bool → List String → List String → Result Denial GateDecision
  run_checks request receipts hold checked [] = ok (decide request true "authorized" checked false)
  run_checks request receipts hold checked (c ∷ rest) =
      let later = run_checks request receipts hold (checked ++ c ∷ []) rest in
      do
        r ← run_check (get c registry) request receipts
        if r.0 then later else ok (decide request false r.1 (checked ++ c ∷ []) hold)

  unfoldable pub evaluate_action : GateRequest → Issuers → ℕ → Result Denial GateDecision
  evaluate_action request issuers now = do
    assert_policy_integrity
    receipts ← verified_receipts issuers request now
    run_checks request receipts (held (get "classifier" receipts)) [] (row request.action).1

  -- A check that is registered and passes.
  abbrev passes_with : Option Check → GateRequest → Receipts → Bool
  passes_with none request receipts = false
  passes_with (some check) request receipts = (check request receipts).0

  pub passes : GateRequest → Receipts → String → Bool
  passes request receipts c = passes_with (get c registry) request receipts

  run_checks-allowed :
      (request : GateRequest) (receipts : Receipts) (hold : Bool) (checked cs : List String)
      {d : GateDecision}
      → run_checks request receipts hold checked cs ≡ ok d
      → d.allowed ≡ all (passes request receipts) cs
  unfolding run_checks passes
  run_checks-allowed request receipts hold checked [] h = cc
  run_checks-allowed request receipts hold checked (c ∷ rest) {d} h =
      step (get c registry) h
        (λ d' k. run_checks-allowed request receipts hold (checked ++ c ∷ []) rest k)
    where
      later : Result Denial GateDecision
      later = run_checks request receipts hold (checked ++ c ∷ []) rest

      step :
          (o : Option Check)
          → (run_check o request receipts >>= λ r.
              if r.0 then later else ok (decide request false r.1 (checked ++ c ∷ []) hold))
            ≡ ok d
          → ((d' : GateDecision) → later ≡ ok d' → d'.allowed ≡ all (passes request receipts) rest)
          → d.allowed ≡ (passes_with o request receipts && all (passes request receipts) rest)
      step none k ih = cc
      step (some check) k ih = elim (Bool-cases (check request receipts).0) [
        | inl e ↦ rw e (ih d (rw e at k))
        | inr e ↦ rw e (let made = rw e at k in cc)
      ]

  -- A decision is for allowing the action exactly when the evidence of the request was verified and
  -- every check that the matrix lists for the action is registered and passes on it.
  pub allowed_exact :
      (request : GateRequest) (issuers : Issuers) (now : ℕ) (d : GateDecision)
      → evaluate_action request issuers now ≡ ok d
      → (receipts : Receipts) × (verified_receipts issuers request now ≡ ok receipts)
        × (d.allowed ≡ all (passes request receipts) (row request.action).1)
  unfolding evaluate_action
  allowed_exact request issuers now d h =
      let (_, k) = raise_if-ok (not (str_eq lib.matrix_sha256 expected_matrix)) _ _ h in
      step (verified_receipts issuers request now) refl k
    where
      step :
          (v : Result Denial Receipts)
          → verified_receipts issuers request now ≡ v
          → (v >>= λ receipts.
              run_checks request receipts
                (held (get "classifier" receipts))
                []
                (row request.action).1)
            ≡ ok d
          → (receipts : Receipts) × (verified_receipts issuers request now ≡ ok receipts)
            × (d.allowed ≡ all (passes request receipts) (row request.action).1)
      step (err f) e k = cc
      step (ok receipts) e k = (
        receipts,
        e,
        run_checks-allowed request receipts (held (get "classifier" receipts)) []
            (row request.action).1 k,
      )

  abbrev pub is_forbidden : ConsequenceTier → Bool
  is_forbidden ConsequenceTier.forbidden = true
  is_forbidden _ = false

  left : (b c : Bool) → (b && c) ≡ true → b ≡ true
  left true c h = refl
  left false c h = cc

  right : (b c : Bool) → (b && c) ≡ true → c ≡ true
  right true c h = h
  right false c h = cc

  tenant_match-one :
      (request : GateRequest) (receipts : Receipts) (rest : Bool)
      → (passes request receipts "tenant_match" && rest) ≡ true
      → str_eq request.actor_tenant_id request.request_tenant_id ≡ true
  unfolding passes registry tenant_match_check
  tenant_match-one request receipts rest h = right (is_truthy request.actor_tenant_id) _ (
      left
        (is_truthy request.actor_tenant_id
          && str_eq request.actor_tenant_id request.request_tenant_id)
        rest h)

  tenant_zero-one :
      (request : GateRequest) (receipts : Receipts) (rest : Bool)
      → (passes request receipts "tenant_zero" && rest) ≡ true
      → str_eq request.actor_tenant_id request.request_tenant_id ≡ true
  unfolding passes registry tenant_zero_check
  tenant_zero-one request receipts rest h =
      left (str_eq request.actor_tenant_id request.request_tenant_id)
        (str_eq request.request_tenant_id "tenant-zero")
        (left
          (str_eq request.actor_tenant_id request.request_tenant_id
            && str_eq request.request_tenant_id "tenant-zero")
          rest h)

  forbidden-passes :
      {A : Type 0} (request : GateRequest) (receipts : Receipts) (rest : Bool)
      → (passes request receipts "forbidden" && rest) ≡ true
      → A
  unfolding passes registry forbidden_check
  forbidden-passes request receipts rest h = cc

  -- What a row says of the tenants: no forbidden row passes, and every other one asks for one tenant.
  one_tenant :
      (request : GateRequest) (receipts : Receipts) (a : ActionClass)
      → all (passes request receipts) (row a).1 ≡ true
      → (is_forbidden (row a).0 ≡ false)
        × (str_eq request.actor_tenant_id request.request_tenant_id ≡ true)
  unfolding row
  one_tenant request receipts ActionClass.read_tenant_data h =
      (refl, tenant_match-one request receipts _ h)
  one_tenant request receipts ActionClass.draft_compute h =
      (refl, tenant_match-one request receipts _ h)
  one_tenant request receipts ActionClass.write_tenant_state h =
      (refl, tenant_match-one request receipts _ h)
  one_tenant request receipts ActionClass.external_read h =
      (refl, tenant_match-one request receipts _ h)
  one_tenant request receipts ActionClass.notify_customer h =
      (refl, tenant_match-one request receipts _ h)
  one_tenant request receipts ActionClass.money_artifact h =
      (refl, tenant_match-one request receipts _ h)
  one_tenant request receipts ActionClass.upload_customer_system h =
      (refl, tenant_match-one request receipts _ h)
  one_tenant request receipts ActionClass.submit_irreversible h =
      forbidden-passes request receipts _ h
  one_tenant request receipts ActionClass.credential_change h =
      (refl, tenant_zero-one request receipts _ h)
  one_tenant request receipts ActionClass.prod_change h =
      (refl, tenant_zero-one request receipts _ h)
  one_tenant request receipts ActionClass.policy_change h =
      (refl, tenant_zero-one request receipts _ h)
  one_tenant request receipts ActionClass.kill_respawn h =
      (refl, tenant_zero-one request receipts _ h)
  one_tenant request receipts ActionClass.spend_change h =
      (refl, tenant_zero-one request receipts _ h)
  one_tenant request receipts ActionClass.cross_tenant h = forbidden-passes request receipts _ h

  -- An action that is allowed is not of the FORBIDDEN tier (no irreversible submission and nothing
  -- across tenants is ever allowed, whatever the evidence), and its actor's tenant is the tenant that
  -- the request is for.
  pub allowed_stays_in_tenant :
      (request : GateRequest) (issuers : Issuers) (now : ℕ) (d : GateDecision)
      → evaluate_action request issuers now ≡ ok d
      → d.allowed ≡ true
      → (is_forbidden (row request.action).0 ≡ false)
        × (str_eq request.actor_tenant_id request.request_tenant_id ≡ true)
  allowed_stays_in_tenant request issuers now d h a =
      let (receipts, _, e) = allowed_exact request issuers now d h in
      one_tenant request receipts request.action (sym e ∙ a)
