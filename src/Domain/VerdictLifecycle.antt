-- ===== src/Domain/VerdictLifecycle.antt =====
-- What holds of a persisted verdict after any sequence of requested changes of state.
use cc_suite.Prelude.{
  ◌≡◌, refl, Bool, true, false, ◌&&◌, none, List, [], ◌∷◌, String, Result, ok, err, nonblank,
  is_truthy, arith, ◌⊎◌, inl, inr, any, is_some, Bool-cases,
}
use cc_suite.Domain.{DateTime, QualificationState, GateMode, is_qualifying, is_review, Fault}
use cc_suite.Domain.Verdicts.{EvalQualification, transition}

-- A requested change: its target, its time and its reason.
pub record Request : Type 0 where
  pub target : QualificationState
  pub now : DateTime
  pub reason : String

abbrev after : EvalQualification → Result Fault EvalQualification → EvalQualification
after row (ok row') = row'
after row (err e) = row

-- A request that raises leaves the row as it was.
unfoldable pub request : EvalQualification → Request → EvalQualification
request row r = after row (transition row r.target none r.now r.reason)

unfoldable pub requests : EvalQualification → List Request → EvalQualification
requests row [] = row
requests row (r ∷ rest) = requests (request row r) rest

unfoldable pub history : EvalQualification → List Request → List QualificationState
history row [] = row.state ∷ []
history row (r ∷ rest) = row.state ∷ history (request row r) rest

pub record IsSound (row : EvalQualification) : Type 0 where
  pub no_failures :
      is_qualifying row.state ≡ true
      → (row.critical_failure_count ≡ 0) × (row.error_count ≡ 0) × (row.forbidden_effect_count ≡ 0)
  pub no_open_question :
      is_qualifying row.state ≡ true
      → (row.inconclusive_count ≡ 0)
        ⊎ ((is_review row.inconclusive_policy && is_truthy row.reviewer_identity) ≡ true)
  pub gate_may_qualify :
      row.state ≡ QualificationState.qualified → ¬ (row.gate_mode ≡ GateMode.advisory)
  pub stale_reason :
      row.state ≡ QualificationState.stale
      → (nonblank row.invalidation_reason && is_some row.invalidated_at) ≡ true
  pub expired_reason :
      row.state ≡ QualificationState.expired
      → (nonblank row.invalidation_reason && is_some row.invalidated_at) ≡ true

request-IsSound : (row : EvalQualification) (r : Request) → IsSound row → IsSound (request row r)
unfolding request transition
request-IsSound row r h = record {
  no_failures = ground arith;
  no_open_question = ground arith;
  gate_may_qualify = ground arith;
  stale_reason = ground arith;
  expired_reason = ground arith;
}

requests-IsSound :
    (row : EvalQualification) (rs : List Request) → IsSound row → IsSound (requests row rs)
unfolding requests
requests-IsSound row [] h = h
requests-IsSound row (r ∷ rest) h = requests-IsSound (request row r) rest (request-IsSound row r h)

pending-IsSound : (row : EvalQualification) → row.state ≡ QualificationState.pending → IsSound row
pending-IsSound row h = record {
  no_failures = ground arith;
  no_open_question = ground arith;
  gate_may_qualify = ground arith;
  stale_reason = ground arith;
  expired_reason = ground arith;
}

-- From a pending row, whatever changes are requested: a row in a qualifying state has no critical
-- failure, no error and no forbidden effect on record, and no inconclusive case unless the policy
-- is REVIEW and a reviewer is named; a QUALIFIED row has no advisory gate; a STALE or EXPIRED row
-- has its reason and its time.
pub pending-requests-IsSound :
    (row : EvalQualification) (rs : List Request)
    → row.state ≡ QualificationState.pending
    → IsSound (requests row rs)
pending-requests-IsSound row rs h = requests-IsSound row rs (pending-IsSound row h)

abbrev pub is_rejected : QualificationState → Bool
is_rejected QualificationState.rejected = true
is_rejected _ = false

-- REJECTED and what can follow it.
abbrev is_after_rejection : QualificationState → Bool
is_after_rejection QualificationState.rejected = true
is_after_rejection QualificationState.waived = true
is_after_rejection QualificationState.stale = true
is_after_rejection QualificationState.expired = true
is_after_rejection _ = false

request_after_rejection :
    (row : EvalQualification) (r : Request)
    → is_after_rejection row.state ≡ true
    → is_after_rejection (request row r).state ≡ true
unfolding request transition
request_after_rejection row r h = ground arith

requests_after_rejection :
    (row : EvalQualification) (rs : List Request)
    → is_after_rejection row.state ≡ true
    → is_after_rejection (requests row rs).state ≡ true
unfolding requests
requests_after_rejection row [] h = h
requests_after_rejection row (r ∷ rest) h =
    requests_after_rejection (request row r) rest (request_after_rejection row r h)

-- A rejected row never becomes QUALIFIED or ADVISORY_QUALIFIED, by a waiver or by any other change.
pub rejected_never_qualifies :
    (row : EvalQualification) (rs : List Request)
    → row.state ≡ QualificationState.rejected
    → is_qualifying (requests row rs).state ≡ false
rejected_never_qualifies row rs h =
    let later = requests_after_rejection row rs (rw h refl) in ground arith

abbrev is_waived : QualificationState → Bool
is_waived QualificationState.waived = true
is_waived _ = false

request_waived :
    (row : EvalQualification) (r : Request)
    → is_waived row.state ≡ false
    → is_waived (request row r).state ≡ true
    → is_rejected row.state ≡ true
unfolding request transition
request_waived row r h w = ground arith

any-history :
    (row : EvalQualification) (rs : List Request)
    → is_rejected row.state ≡ true
    → any is_rejected (history row rs) ≡ true
unfolding history
any-history row [] h = ground arith
any-history row (r ∷ rs) h = ground arith

waived-any-rejected :
    (row : EvalQualification) (rs : List Request)
    → is_waived row.state ≡ false
    → is_waived (requests row rs).state ≡ true
    → any is_rejected (history row rs) ≡ true
unfolding requests history
waived-any-rejected row [] h w = ground arith
waived-any-rejected row (r ∷ rest) h w = elim (Bool-cases (is_waived (request row r).state)) [
  | inl now ↦ ground (arith, request_waived row r h now)
  | inr still ↦ ground (arith, waived-any-rejected (request row r) rest still w)
]

-- A row that some sequence of changes brought from PENDING to WAIVED was REJECTED on the way.
pub waived_through_rejected :
    (row : EvalQualification) (rs : List Request)
    → row.state ≡ QualificationState.pending
    → (requests row rs).state ≡ QualificationState.waived
    → any is_rejected (history row rs) ≡ true
waived_through_rejected row rs h w = waived-any-rejected row rs (rw h refl) (rw w refl)
