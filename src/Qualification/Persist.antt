-- ===== src/Qualification/Persist.antt =====
-- `to_domain_qualification` (qualification.py, lines 594-647): the bridge from an issued qualification
-- to the row that the kernel stores, through the row's own life cycle.
use cc_suite.Prelude.{
  ℕ, Bool, true, false, not, Option, none, some, String, Result, ok, err, raise_if, ◌>>=◌, ◌>>◌,
  nonblank, is_truthy, sha256_match, if◌then◌else◌,
}
use cc_suite.Prelude.Floats.{Floats}
use cc_suite.Domain.{DateTime, Refusal, Fault, refused_row, QualificationState}
use cc_suite.Domain.Verdicts.{EvalQualification, transition}
use cc_suite.Graders.Aggregate.{domain_counters}
use cc_suite.Qualification.Issue.{Qualification}

abbrev pub is_waived : QualificationState → Bool
is_waived QualificationState.waived = true
is_waived _ = false

abbrev pub is_pending : QualificationState → Bool
is_pending QualificationState.pending = true
is_pending _ = false

abbrev pub is_rejected : QualificationState → Bool
is_rejected QualificationState.rejected = true
is_rejected _ = false

abbrev some_text : String → Option String
some_text s = if is_truthy s then some s else none

module _ ⦃fl : Floats⦄ where
  -- The row before it is walked to its state.
  abbrev pub pending_row : Qualification → String → ℕ → String → EvalQualification
  pending_row q tenant_id run_id snapshot =
      let counters = domain_counters q.aggregate.case_results in
      record {
        tenant_id = tenant_id;
        run_id = run_id;
        suite_id = q.aggregate.suite_id;
        suite_version = q.aggregate.suite_version;
        target_fingerprint = q.target_fingerprint;
        state = QualificationState.pending;
        gate_mode = q.gate_mode;
        inconclusive_policy = q.aggregate.policy.inconclusive_policy;
        critical_failure_count = counters.critical_failure_count;
        error_count = counters.error_count;
        inconclusive_count = counters.inconclusive_count;
        forbidden_effect_count = counters.forbidden_effect_count;
        reviewer_identity = q.reviewer_identity;
        reviewer_family = q.reviewer_family;
        subject_family = q.subject_family;
        receipt_sha256 = some_text q.receipt_sha256;
        snapshot_sha256 = snapshot;
        expires_at = some q.expires_at;
        invalidated_at = none;
        invalidation_reason = "";
        decided_at = none;
      }

  -- `row.transition(state, at=...)`, when the test holds.
  unfoldable pub walk :
      Bool → QualificationState → DateTime → EvalQualification → Result Fault EvalQualification
  walk test state at row =
      let moved = transition row state (some at) at "" in if test then moved else ok row

  abbrev pub refused {ℓ} : {A : Type ℓ} → Result Fault A → Result Refusal A
  refused (ok a) = ok a
  refused (err f) = err (refused_row f)

  unfoldable pub to_domain_qualification :
      Qualification → String → ℕ → String → Result Refusal EvalQualification
  to_domain_qualification q tenant_id run_id snapshot = do
    raise_if (not (nonblank tenant_id)) Refusal.blank_tenant
    raise_if (not (sha256_match snapshot)) Refusal.bad_fingerprint
    refused (do
      row ←
          walk (is_waived q.state) QualificationState.rejected q.issued_at
            (pending_row q tenant_id run_id snapshot)
      walk (not (is_pending q.state)) q.state q.issued_at row)
