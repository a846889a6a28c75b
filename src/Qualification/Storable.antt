-- ===== src/Qualification/Storable.antt =====
-- What `to_domain_qualification` stores (qualification.py, lines 594-647): every issued qualification and
-- every waived one goes through the life cycle of the row.
use cc_suite.Prelude.{
  ℕ, ◌≡◌, refl, sym, ap, ◌∙◌, Bool, true, false, not, ◌&&◌, ◌||◌, none, some, String, Result, ok,
  ◌>>=◌, nonblank, sha256_match, arith, nonblank-is_truthy, raise_if-pass, raise_if-ok, Bool-cases,
  inl, inr, List, [], ◌∷◌,
}
use cc_suite.Prelude.Floats.{Floats}
use cc_suite.Domain.{
  DateTime, Fault, QualificationState, is_blocking, is_qualifying, qualification_transitions,
}
use cc_suite.Domain.Verdicts.{
  EvalQualification, transition, qualifying_guard, assert_qualification_transition,
}
use cc_suite.Qualification.Issue.{
  Qualification, qualifying_refusal, IssueRequest, Hashing, issue_qualification,
  apply_waiver_to_rejected_qualification, nonempty, with_receipt,
}
use cc_suite.Qualification.Issued.{
  is_qualified, is_advisory_qualified, is_pending_or_rejected, refuses, issued_state_exact,
  not-false,
}
use cc_suite.Qualification.Persist.{
  is_waived, is_pending, is_rejected, pending_row, walk, refused, to_domain_qualification,
}

module _ ⦃fl : Floats⦄ where
  -- The row's own guard is `_qualifying_refusal` and the rule against QUALIFIED at an advisory gate.
  guard-refuses :
      (q : Qualification) (tenant_id : String) (run_id : ℕ) (snapshot : String)
      (target : QualificationState)
      → refuses q ≡ false
      → (is_qualified target && not (is_blocking q.gate_mode)) ≡ false
      → qualifying_guard (pending_row q tenant_id run_id snapshot) target ≡ ok tt
  unfolding qualifying_guard qualifying_refusal
  guard-refuses q tenant_id run_id snapshot target h k =
      ground (arith, nonblank-is_truthy q.reviewer_identity)

  -- A change of the pending row to a state that is derived, or of a rejected one to WAIVED, goes
  -- through when the guard does.
  abbrev IsMovedTo :
      EvalQualification → QualificationState → Result Fault EvalQualification → Type 0
  IsMovedTo row target m =
      (row' : EvalQualification) × (m ≡ ok row')
      × (row'.state ≡ target)
      × (row'.tenant_id ≡ row.tenant_id)
      × (row'.invalidated_at ≡ row.invalidated_at)

  abbrev decided : EvalQualification → QualificationState → DateTime → EvalQualification
  decided row target at = record row { state = target; decided_at = some at }

  settled :
      (row : EvalQualification) (target : QualificationState) (at : DateTime)
      → assert_qualification_transition row.state target ≡ ok tt
      → (is_qualifying target ≡ true → qualifying_guard row target ≡ ok tt)
      → (is_qualifying target || is_rejected target || is_waived target) ≡ true
      → IsMovedTo row target (transition row target (some at) at "")
  unfolding transition
  settled row QualificationState.pending at legal guard k = cc
  settled row QualificationState.advisory_qualified at legal guard k = (
    decided row QualificationState.advisory_qualified at,
    rw (legal, guard refl) refl,
    refl,
    refl,
    refl,
  )
  settled row QualificationState.qualified at legal guard k =
      (decided row QualificationState.qualified at, rw (legal, guard refl) refl, refl, refl, refl)
  settled row QualificationState.rejected at legal guard k =
      (decided row QualificationState.rejected at, rw legal refl, refl, refl, refl)
  settled row QualificationState.waived at legal guard k =
      (decided row QualificationState.waived at, rw legal refl, refl, refl, refl)
  settled row QualificationState.stale at legal guard k = cc
  settled row QualificationState.expired at legal guard k = cc
  settled row QualificationState.error at legal guard k = cc

  pending-legal :
      (s : QualificationState)
      → (is_qualifying s || is_pending_or_rejected s) ≡ true
      → assert_qualification_transition QualificationState.pending s ≡ ok tt
  unfolding assert_qualification_transition qualification_transitions
  pending-legal s h = ground arith

  pending-same : (s : QualificationState) → is_pending s ≡ true → QualificationState.pending ≡ s
  pending-same s h = ground arith

  derived-settles :
      (s : QualificationState)
      → (is_qualifying s || is_pending_or_rejected s) ≡ true
      → is_pending s ≡ false
      → (is_qualifying s || is_rejected s || is_waived s) ≡ true
  derived-settles s h k = ground arith

  derived-not-waived :
      (s : QualificationState)
      → (is_qualifying s || is_pending_or_rejected s) ≡ true
      → is_waived s ≡ false
  derived-not-waived s h = ground arith

  -- A qualification in a derived state, with what the row's guard asks of a qualifying one, is walked
  -- to its state.
  walk-derived :
      (q : Qualification) (row : EvalQualification)
      → row.state ≡ QualificationState.pending
      → (is_qualifying q.state || is_pending_or_rejected q.state) ≡ true
      → (is_qualifying q.state ≡ true → qualifying_guard row q.state ≡ ok tt)
      → IsMovedTo row q.state (walk (not (is_pending q.state)) q.state q.issued_at row)
  unfolding walk
  walk-derived q row pending derived guard = elim (Bool-cases (is_pending q.state)) [
    | inl p ↦ (row, rw p refl, pending ∙ pending-same q.state p, refl, refl)
    | inr p ↦
        let (row', e, state, tenant, kept) =
          settled row q.state q.issued_at (rw pending (pending-legal q.state derived)) guard
            (derived-settles q.state derived p) in
        (row', rw p e, state, tenant, kept)
  ]

  -- A row that is stored: the bridge returns one, in the qualification's own state, under the tenant
  -- and not invalidated.
  abbrev pub IsStored : Qualification → String → ℕ → String → Type 0
  IsStored q tenant_id run_id snapshot =
      (row : EvalQualification) × (to_domain_qualification q tenant_id run_id snapshot ≡ ok row)
      × (row.state ≡ q.state)
      × (row.tenant_id ≡ tenant_id)
      × (row.invalidated_at ≡ none)

  abbrev walks : Qualification → EvalQualification → Result Fault EvalQualification
  walks q row = do
    row' ← walk (is_waived q.state) QualificationState.rejected q.issued_at row
    walk (not (is_pending q.state)) q.state q.issued_at row'

  walk-waived :
      (q : Qualification) (row : EvalQualification)
      → q.state ≡ QualificationState.waived
      → row.state ≡ QualificationState.pending
      → IsMovedTo row q.state (walks q row)
  unfolding walk transition assert_qualification_transition qualification_transitions
  walk-waived q row w p = (
    decided (decided row QualificationState.rejected q.issued_at) QualificationState.waived
        q.issued_at,
    rw (w, p) refl,
    sym w,
    refl,
    refl,
  )

  stored :
      (q : Qualification) (tenant_id : String) (run_id : ℕ) (snapshot : String)
      → nonblank tenant_id ≡ true
      → sha256_match snapshot ≡ true
      → IsMovedTo
          (pending_row q tenant_id run_id snapshot)
          q.state
          (walks q (pending_row q tenant_id run_id snapshot))
      → IsStored q tenant_id run_id snapshot
  unfolding to_domain_qualification
  stored q tenant_id run_id snapshot t d (row, e, state, tenant, invalidated) = (
    row,
    raise_if-pass (not (nonblank tenant_id)) _ _ (ap not t)
        ∙ (raise_if-pass (not (sha256_match snapshot)) _ _ (ap not d) ∙ ap refused e),
    state,
    tenant,
    invalidated,
  )

module _ ⦃fl : Floats⦄ ⦃hs : Hashing⦄ where
  -- Every qualification that `issue_qualification` returns can be stored: for a tenant that is not
  -- blank and a snapshot digest, `to_domain_qualification` returns a row in the same state, under that
  -- tenant and not invalidated. The row's own transition table and qualifying guard refuse none.
  pub issued_is_storable :
      (r : IssueRequest) (q : Qualification) (tenant_id : String) (run_id : ℕ) (snapshot : String)
      → issue_qualification r ≡ ok q
      → nonblank tenant_id ≡ true
      → sha256_match snapshot ≡ true
      → IsStored q tenant_id run_id snapshot
  unfolding walk
  issued_is_storable r q tenant_id run_id snapshot h t d =
      let (qualified, advisory, four) = issued_state_exact r q h in
      let derived : (is_qualifying q.state || is_pending_or_rejected q.state) ≡ true =
        qualifying-or q.state four in
      let gate : (is_qualified q.state && not (is_blocking q.gate_mode)) ≡ false = ground arith in
      let passes : is_qualifying q.state ≡ true → refuses q ≡ false =
        λ k. qualifying-passes q.state (refuses q) k (ground arith) (ground arith) in
      stored q tenant_id run_id snapshot t d (
        rw (derived-not-waived q.state derived) (
          walk-derived q (pending_row q tenant_id run_id snapshot) refl derived
            (λ k. guard-refuses q tenant_id run_id snapshot q.state (passes k) gate)))
    where
      qualifying-or :
          (s : QualificationState)
          → (is_qualified s || is_advisory_qualified s || is_pending_or_rejected s) ≡ true
          → (is_qualifying s || is_pending_or_rejected s) ≡ true
      qualifying-or s k = ground arith

      qualifying-passes :
          (s : QualificationState) (f : Bool)
          → is_qualifying s ≡ true
          → (is_qualified s && f) ≡ false
          → (is_advisory_qualified s && f) ≡ false
          → f ≡ false
      qualifying-passes s f k l m = ground arith

  IsWaivedFrom : Qualification → Qualification → Type 0
  IsWaivedFrom q waived =
      (q.state ≡ QualificationState.rejected)
      × (nonempty q.applied_waivers ≡ true)
      × (q.remaining_findings ≡ [])
      × (waived ≡ with_receipt (record q { state = QualificationState.waived }))

  rejected-state :
      (s : QualificationState) → not (is_rejected s) ≡ false → s ≡ QualificationState.rejected
  rejected-state s h = ground arith

  empty-list : {A : Type 0} (xs : List A) → nonempty xs ≡ false → xs ≡ []
  empty-list [] h = refl
  empty-list (x ∷ xs) h = cc

  waived-IsWaivedFrom :
      (q waived : Qualification)
      → apply_waiver_to_rejected_qualification q ≡ ok waived
      → IsWaivedFrom q waived
  unfolding apply_waiver_to_rejected_qualification IsWaivedFrom
  waived-IsWaivedFrom q waived h =
      let (a, h1) = raise_if-ok (not (is_rejected q.state)) _ _ h in
      let (b, h2) = raise_if-ok (not (nonempty q.applied_waivers)) _ _ h1 in
      let (c, h3) = raise_if-ok (nonempty q.remaining_findings) _ _ h2 in
      (
        rejected-state q.state a,
        not-false (nonempty q.applied_waivers) b,
        empty-list q.remaining_findings c,
        cc,
      )

  -- A qualification that `apply_waiver_to_rejected_qualification` makes WAIVED can be stored too: for a
  -- tenant that is not blank and a snapshot digest, `to_domain_qualification` walks the row through
  -- REJECTED and returns it in state WAIVED, under that tenant and not invalidated.
  pub waived_is_storable :
      (q waived : Qualification) (tenant_id : String) (run_id : ℕ) (snapshot : String)
      → apply_waiver_to_rejected_qualification q ≡ ok waived
      → nonblank tenant_id ≡ true
      → sha256_match snapshot ≡ true
      → IsStored waived tenant_id run_id snapshot
        × (waived.state ≡ QualificationState.waived)
        × (q.state ≡ QualificationState.rejected)
        × (nonempty q.applied_waivers ≡ true)
        × (q.remaining_findings ≡ [])
  unfolding IsWaivedFrom
  waived_is_storable q waived tenant_id run_id snapshot h t d =
      let (a, b, c, e) = waived-IsWaivedFrom q waived h in
      let state : waived.state ≡ QualificationState.waived = rw e refl in
      (
        stored waived tenant_id run_id snapshot t d
            (walk-waived waived (pending_row waived tenant_id run_id snapshot) state refl),
        state,
        a,
        b,
        c,
      )
