-- ===== src/Authority/Require.antt =====
-- `require_action` (authority.py, lines 106-110 and 450-474).
use cc_suite.Prelude.{
  ℕ, ◌≡◌, refl, sym, ap, ◌∙◌, Bool, true, false, not, ◌&&◌, Option, none, some, String, str_eq,
  Result, ok, err, raise_if, ◌>>=◌, ◌>>◌, all, arith, raise_if-ok, >>-ok,
}
use cc_suite.Authority.Types.{GateRequest, GateDecision, Denial, denied, Libraries, Receipts}
use cc_suite.Authority.Trust.{Issuers, verified_receipts}
use cc_suite.Authority.Matrix.{row, starts_with}
use cc_suite.Authority.Gate.{
  evaluate_action, allowed_exact, allowed_stays_in_tenant, passes, is_forbidden,
}

module _ ⦃lib : Libraries⦄ where
  pub record ScribeEscalation : Type 0 where
    pub decision_sha256 : String
    pub objective_id : String
    pub durable_ref : String

  -- The escalation is bound to the decision and durable. `none` is a value of another type.
  is_bound : GateRequest → GateDecision → (ScribeEscalation → Bool) → Option ScribeEscalation → Bool
  is_bound request d verifier none = false
  is_bound request d verifier (some e) =
      str_eq e.decision_sha256 d.decision_sha256
      && str_eq e.objective_id request.objective_id
      && starts_with e.durable_ref "scribe://"
      && verifier e

  unfoldable pub require_action :
      GateRequest
      → Issuers
      → ℕ
      → (GateRequest → GateDecision → Option ScribeEscalation)
      → (ScribeEscalation → Bool)
      → Result Denial GateDecision
  unfolding is_bound
  require_action request issuers now escalator verifier = do
    d ← evaluate_action request issuers now
    raise_if
        (not d.allowed
          && d.escalate_to_scribe
          && not (is_bound request d verifier (escalator request d)))
        Denial.unbound_escalation
    raise_if (not d.allowed) (denied d)
    ok d

  -- What `require_action` returns, whatever the escalation does, is an allowing decision of
  -- `evaluate_action` on verified evidence that passed every check of its row; its tier is not
  -- FORBIDDEN and the actor's tenant is the one that the request is for.
  pub required_action_is_authorized :
      (request : GateRequest) (issuers : Issuers) (now : ℕ)
      (escalator : GateRequest → GateDecision → Option ScribeEscalation)
      (verifier : ScribeEscalation → Bool) (d : GateDecision)
      → require_action request issuers now escalator verifier ≡ ok d
      → (evaluate_action request issuers now ≡ ok d)
        × (d.allowed ≡ true)
        × ((receipts : Receipts) × (verified_receipts issuers request now ≡ ok receipts)
            × (all (passes request receipts) (row request.action).1 ≡ true))
        × (is_forbidden (row request.action).0 ≡ false)
        × (str_eq request.actor_tenant_id request.request_tenant_id ≡ true)
  unfolding require_action
  required_action_is_authorized request issuers now escalator verifier d h =
      let (e, a) = decided (evaluate_action request issuers now) refl h in
      let (receipts, v, p) = allowed_exact request issuers now d e in
      let (tier, tenant) = allowed_stays_in_tenant request issuers now d e a in
      (e, a, (receipts, v, sym p ∙ a), tier, tenant)
    where
      settled :
          (f : Denial) (m : Result Denial (Unit {0})) (d' : GateDecision)
          → (m >> (raise_if (not d'.allowed) f >> ok d')) ≡ ok d
          → (d' ≡ d) × (d.allowed ≡ true)
      settled f m d' k =
          let (_, k1) = >>-ok m _ k in
          let (a, k2) = raise_if-ok (not d'.allowed) f _ k1 in
          let same : d' ≡ d = cc in (same, ground (arith, ap (λ x. x.allowed) same))

      decided :
          (v : Result Denial GateDecision)
          → evaluate_action request issuers now ≡ v
          → (v >>= λ d'.
              raise_if
                (not d'.allowed
                  && d'.escalate_to_scribe
                  && not (is_bound request d' verifier (escalator request d')))
                Denial.unbound_escalation
              >> (raise_if (not d'.allowed) (denied d') >> ok d'))
            ≡ ok d
          → (evaluate_action request issuers now ≡ ok d) × (d.allowed ≡ true)
      decided (err f) e k = cc
      decided (ok d') e k = let (same, a) = settled (denied d') _ d' k in (e ∙ ap ok same, a)
