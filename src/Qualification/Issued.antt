-- ===== src/Qualification/Issued.antt =====
-- What an issued qualification says (qualification.py, lines 325-591): its state against the evidence
-- it carries, the baseline comparison, and the enforcement preview.
use cc_suite.Prelude.{
  ◌≡◌, refl, sym, ◌∙◌, Bool, true, false, not, ◌&&◌, ◌||◌, Option, none, some, List, [], ◌∷◌,
  String, str_eq, Result, ok, err, ◌>>=◌, ◌>>◌, sha256_match, arith, All, any, filter, is_ok, >>-ok,
  raise_if-ok,
}
use cc_suite.Prelude.Floats.{Floats}
use cc_suite.Domain.{
  DateTime, Refusal, ResultState, GateMode, QualificationState, is_pass, is_blocking,
}
use cc_suite.Domain.Waivers.{EvalWaiver}
use cc_suite.Graders.Cases.{CaseResult, case_state}
use cc_suite.Graders.Aggregate.{BlockingFinding, domain_counters}
use cc_suite.Graders.Outcome.{AggregateOutcome, outcome_case_state}
use cc_suite.Qualification.Waivers.{WaiverApplication, apply_waivers}
use cc_suite.Qualification.Cover.{waivers_authorize_nothing, has_aware_expiry}
use cc_suite.Qualification.Issue.{
  Qualification, IssueRequest, Hashing, Evidence, issue_qualification, qualification_checks, build,
  with_receipt, evidence_of, derive_state, nonempty, qualifying_refusal,
  would_block_under_enforcement, compare_to_baseline, compared, deltas, add_delta,
  apply_waiver_to_rejected_qualification,
}

abbrev pub is_qualified : QualificationState → Bool
is_qualified QualificationState.qualified = true
is_qualified _ = false

abbrev pub is_advisory_qualified : QualificationState → Bool
is_advisory_qualified QualificationState.advisory_qualified = true
is_advisory_qualified _ = false

abbrev pub is_pending_or_rejected : QualificationState → Bool
is_pending_or_rejected QualificationState.pending = true
is_pending_or_rejected QualificationState.rejected = true
is_pending_or_rejected _ = false

abbrev pub is_advisory_gate : GateMode → Bool
is_advisory_gate GateMode.advisory = true
is_advisory_gate _ = false

abbrev pub passed_before : Option ResultState → Bool
passed_before none = false
passed_before (some s) = is_pass s

pub not-false : (b : Bool) → not b ≡ false → b ≡ true
not-false true h = refl
not-false false h = cc

-- Nothing that the evidence holds stands against a qualification, but the gate and the findings.
abbrev pub is_clear : Evidence → Bool
is_clear e =
    not e.has_applied
    && not (e.requires_human_review && not e.human_review_completed)
    && not e.refused

abbrev pub is_unacknowledged : Evidence → Bool
is_unacknowledged e = e.material_regression && not e.regression_acknowledged

derive_state-qualified :
    (e : Evidence)
    → is_qualified (derive_state e)
      ≡ (is_blocking e.gate_mode && not e.has_remaining && is_clear e && not (is_unacknowledged e))
unfolding derive_state
derive_state-qualified e = ground arith

derive_state-advisory :
    (e : Evidence)
    → is_advisory_qualified (derive_state e) ≡ (
        not (is_blocking e.gate_mode)
        && is_clear e
        && (is_advisory_gate e.gate_mode || not (is_unacknowledged e)))
unfolding derive_state
derive_state-advisory e = ground arith

derive_state-four :
    (e : Evidence)
    → (is_qualified (derive_state e)
        || is_advisory_qualified (derive_state e)
        || is_pending_or_rejected (derive_state e))
      ≡ true
unfolding derive_state
derive_state-four e = ground arith

derive_state-remaining :
    (e : Evidence)
    → e.has_remaining ≡ true
    → is_blocking e.gate_mode ≡ true
    → derive_state e ≡ QualificationState.rejected
unfolding derive_state
derive_state-remaining e h k = ground arith

module _ ⦃fl : Floats⦄ where
  -- What the counters that `_derive_state` reads say, off an issued qualification.
  abbrev pub refuses : Qualification → Bool
  refuses q =
      qualifying_refusal (domain_counters q.aggregate.case_results)
        q.aggregate.policy.inconclusive_policy q.reviewer_identity

module _ ⦃fl : Floats⦄ ⦃hs : Hashing⦄ where
  abbrev pub review_is_missing : IssueRequest → Bool
  review_is_missing r = r.outcome.requires_human_review && not r.human_review_completed

  abbrev pub regression_stands : IssueRequest → Qualification → Bool
  regression_stands r q = q.baseline_comparison.material_regression && not r.regression_acknowledged

  abbrev IsIssueOf : IssueRequest → Qualification → WaiverApplication → Type 0
  IsIssueOf r q app =
      (apply_waivers r.outcome.findings r.waivers r.target_fingerprint r.issued_at r.release_id
        ≡ ok app)
      × (q ≡ with_receipt (build r app))

  issue_qualification-IsIssueOf :
      (r : IssueRequest) {q : Qualification}
      → issue_qualification r ≡ ok q
      → (app : WaiverApplication) × IsIssueOf r q app
  unfolding issue_qualification
  issue_qualification-IsIssueOf r {q} h =
      applied
        (apply_waivers r.outcome.findings r.waivers r.target_fingerprint r.issued_at r.release_id)
        refl h
    where
      applied :
          (a : Result Refusal WaiverApplication)
          → apply_waivers r.outcome.findings r.waivers r.target_fingerprint r.issued_at r.release_id
            ≡ a
          → (a >>= λ app. qualification_checks (build r app) >> ok (with_receipt (build r app)))
            ≡ ok q
          → (app : WaiverApplication) × IsIssueOf r q app
      applied (ok app) e k =
          let (_, m) = >>-ok (qualification_checks (build r app)) _ k in (app, (e, cc))
      applied (err f) e k = cc

  -- A qualification that `issue_qualification` returns is QUALIFIED exactly when the gate is blocking,
  -- no finding remains, no waiver was applied, no counter refuses, no required human review is missing
  -- and no material regression is unacknowledged. It is ADVISORY_QUALIFIED exactly when the gate is
  -- not blocking, no waiver was applied, no counter refuses, no required review is missing, and the
  -- gate is advisory or no regression is unacknowledged. In every other case it is PENDING or REJECTED.
  pub issued_state_exact :
      (r : IssueRequest) (q : Qualification)
      → issue_qualification r ≡ ok q
      → (is_qualified q.state ≡ (
          is_blocking q.gate_mode
          && not (nonempty q.remaining_findings)
          && (not (nonempty q.applied_waivers) && not (review_is_missing r) && not (refuses q))
          && not (regression_stands r q)))
        × (is_advisory_qualified q.state ≡ (
            not (is_blocking q.gate_mode)
            && (not (nonempty q.applied_waivers) && not (review_is_missing r) && not (refuses q))
            && (is_advisory_gate q.gate_mode || not (regression_stands r q))))
        × ((is_qualified q.state || is_advisory_qualified q.state || is_pending_or_rejected q.state)
            ≡ true)
  unfolding build evidence_of
  issued_state_exact r q h =
      let (app, (a, e)) = issue_qualification-IsIssueOf r h in
      let v = evidence_of r app (build r app).baseline_comparison in
      rw e (derive_state-qualified v, derive_state-advisory v, derive_state-four v)

  -- A request that is issued twice, once as it is and once with the gate at BLOCKING: the second
  -- qualification is QUALIFIED exactly when `would_block_under_enforcement` is false of the first, no
  -- required human review is missing and no material regression is unacknowledged. So the preview alone
  -- does not say that an enforcing gate would pass the release.
  pub enforcement_preview_exact :
      (r : IssueRequest) (q blocking : Qualification)
      → issue_qualification r ≡ ok q
      → issue_qualification (record r { gate_mode = GateMode.blocking }) ≡ ok blocking
      → is_qualified blocking.state ≡ (
          not (would_block_under_enforcement q)
          && not (review_is_missing r)
          && not (regression_stands r q))
  unfolding build evidence_of would_block_under_enforcement
  enforcement_preview_exact r q blocking h k =
      let (app, (a, e)) = issue_qualification-IsIssueOf r h in
      let (app', (a', e')) =
        issue_qualification-IsIssueOf (record r { gate_mode = GateMode.blocking }) k in
      let same : app' ≡ app = cc in
      let v =
        evidence_of (record r { gate_mode = GateMode.blocking }) app
          (build r app).baseline_comparison in
      rw (e, e', same) (rw (derive_state-qualified v) (preview v))
    where
      preview :
          (v : Evidence)
          → (not v.has_remaining && is_clear v && not (is_unacknowledged v)) ≡ (
              not (v.has_remaining || v.has_applied || v.refused)
              && not (v.requires_human_review && not v.human_review_completed)
              && not (is_unacknowledged v))
      preview v = ground arith

  nonempty-filter :
      (p : BlockingFinding → Bool) (fs : List BlockingFinding) → any p fs ≡ nonempty (filter p fs)
  nonempty-filter p [] = refl
  nonempty-filter p (f ∷ fs) = ground (arith, nonempty-filter p fs)

  nonempty-any :
      (p : BlockingFinding → Bool) (fs : List BlockingFinding)
      → any p fs ≡ true
      → nonempty fs ≡ true
  nonempty-any p [] h = cc
  nonempty-any p (f ∷ fs) h = refl

  unwaivable :
      (q : Qualification)
      → nonempty q.remaining_findings ≡ true
      → is_ok (apply_waiver_to_rejected_qualification q) ≡ false
  unfolding apply_waiver_to_rejected_qualification
  unwaivable q h = ground arith

  abbrev pub is_forbidden : BlockingFinding → Bool
  is_forbidden f = f.authority_forbidden

  -- What `apply_waivers` accepts has a digest for its target and a time zone on its clock.
  apply_waivers-checked :
      (fs : List BlockingFinding) (ws : List EvalWaiver) (target : String) (now : DateTime)
      (release_id : String) {app : WaiverApplication}
      → apply_waivers fs ws target now release_id ≡ ok app
      → (sha256_match target ≡ true) × (now.is_aware ≡ true)
  unfolding apply_waivers
  apply_waivers-checked fs ws target now release_id h =
      let (d, k) = raise_if-ok (not (sha256_match target)) _ _ h in
      let (n, _) = raise_if-ok (not now.is_aware) _ _ k in
      (not-false (sha256_match target) d, not-false now.is_aware n)

  forbidden-remain :
      (r : IssueRequest) {app : WaiverApplication}
      → apply_waivers r.outcome.findings r.waivers r.target_fingerprint r.issued_at r.release_id
        ≡ ok app
      → any is_forbidden r.outcome.findings ≡ true
      → All (λ w. has_aware_expiry w ≡ true) r.waivers
      → nonempty app.remaining ≡ true
  forbidden-remain r {app} a forbidden expiries =
      let (digest, aware) =
        apply_waivers-checked r.outcome.findings r.waivers r.target_fingerprint r.issued_at
          r.release_id a in
      let (app', a', kept, _) =
        waivers_authorize_nothing r.target_fingerprint r.issued_at r.release_id r.outcome.findings
          r.waivers digest aware expiries in
      let same : app ≡ app' = cc in
      nonempty-any is_forbidden app.remaining (
        rw (nonempty-filter is_forbidden app.remaining, same, kept)
          (sym (nonempty-filter is_forbidden r.outcome.findings) ∙ forbidden))

  -- Under a blocking gate a finding that the runtime authority forbids is never waived: whatever the
  -- waivers are, given that their expiries carry time zones, a qualification that is issued on an
  -- outcome with such a finding is REJECTED, and `apply_waiver_to_rejected_qualification` refuses it.
  pub forbidden_finding_rejects :
      (r : IssueRequest) (q : Qualification)
      → issue_qualification r ≡ ok q
      → is_blocking r.gate_mode ≡ true
      → any is_forbidden r.outcome.findings ≡ true
      → All (λ w. has_aware_expiry w ≡ true) r.waivers
      → (q.state ≡ QualificationState.rejected)
        × (is_ok (apply_waiver_to_rejected_qualification q) ≡ false)
  unfolding build evidence_of
  forbidden_finding_rejects r q h gate forbidden expiries =
      let (app, (a, e)) = issue_qualification-IsIssueOf r h in
      let left = forbidden-remain r a forbidden expiries in
      let v = evidence_of r app (build r app).baseline_comparison in
      (rw e (derive_state-remaining v left gate), unwaivable q (rw e left))

  -- A baseline regresses in a case that it passed and that does not pass now.
  abbrev pub regresses : AggregateOutcome → CaseResult → Bool
  regresses baseline c =
      passed_before (outcome_case_state baseline c.case_id) && not (is_pass (case_state c))

  deltas-regresses :
      (baseline : AggregateOutcome) (cs : List CaseResult)
      → nonempty (deltas baseline cs).0 ≡ any (regresses baseline) cs
  unfolding deltas add_delta
  deltas-regresses baseline [] = refl
  deltas-regresses baseline (c ∷ cs) = ground (arith, deltas-regresses baseline cs)

  -- Against a baseline qualification the comparison reports a material regression exactly when the
  -- baseline sat the same exam (its exam digest is equal) and some case of the current outcome that
  -- does not pass now was recorded as PASS in the baseline.
  pub material_regression_exact :
      (current : AggregateOutcome) (digest : String) (baseline : Qualification)
      → (compare_to_baseline current digest (some baseline)).material_regression ≡ (
          str_eq baseline.exam_digest digest
          && any (regresses baseline.aggregate) current.case_results)
  unfolding compare_to_baseline compared
  material_regression_exact current digest baseline =
      ground (arith, deltas-regresses baseline.aggregate current.case_results)
