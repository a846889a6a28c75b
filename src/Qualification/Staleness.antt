-- ===== src/Qualification/Staleness.antt =====
-- `evaluate_staleness` (qualification.py, lines 650-674).
use cc_suite.Prelude.{
  ◌≡◌, Bool, true, not, ◌&&◌, ◌||◌, String, str_eq, Result, ok, raise_if, ◌>>◌, sha256_match, leb,
  ltb, if◌then◌else◌, arith, ap, ◌∙◌, raise_if-pass,
}
use cc_suite.Prelude.Floats.{Floats}
use cc_suite.Domain.{DateTime, Refusal, QualificationState, is_qualifying, same_qualification_state}
use cc_suite.Qualification.Issue.{Qualification, ExamIdentity, Hashing}

module _ ⦃fl : Floats⦄ ⦃hs : Hashing⦄ where
  abbrev current_state : Qualification → String → ExamIdentity → DateTime → QualificationState
  current_state q current_target current_exam now =
      if not (str_eq current_target q.target_fingerprint)
      then QualificationState.stale
      else if not (str_eq (hs.exam_digest current_exam) q.exam_digest)
      then QualificationState.stale
      else if leb q.expires_at.instant now.instant
      then QualificationState.expired
      else q.state

  unfoldable pub evaluate_staleness :
      Qualification → String → ExamIdentity → DateTime → Result Refusal QualificationState
  evaluate_staleness q current_target current_exam now = do
    raise_if (not (sha256_match current_target)) Refusal.bad_fingerprint
    raise_if (not now.is_aware) Refusal.naive_datetime
    ok (current_state q current_target current_exam now)

  -- A state that lets a release pass: QUALIFIED or ADVISORY_QUALIFIED, or WAIVED.
  abbrev pub releases : QualificationState → Bool
  releases QualificationState.waived = true
  releases s = is_qualifying s

  -- With a digest for the current target and a time zone on the clock, `evaluate_staleness` returns a
  -- state. That is a releasing one (QUALIFIED, ADVISORY_QUALIFIED or WAIVED) exactly when the target
  -- and the exam's digest are those of the qualification, the clock is before its expiry and its own
  -- state is releasing; and whenever it is not STALE or EXPIRED it is the qualification's own state.
  pub live_exactly_unchanged :
      (q : Qualification) (target : String) (exam : ExamIdentity) (now : DateTime)
      → sha256_match target ≡ true
      → now.is_aware ≡ true
      → (s : QualificationState) × (evaluate_staleness q target exam now ≡ ok s)
        × (releases s ≡ (
            str_eq target q.target_fingerprint
            && str_eq (hs.exam_digest exam) q.exam_digest
            && ltb now.instant q.expires_at.instant
            && releases q.state))
        × ((same_qualification_state s QualificationState.stale
              || same_qualification_state s QualificationState.expired
              || same_qualification_state s q.state)
            ≡ true)
  unfolding evaluate_staleness
  live_exactly_unchanged q target exam now d a = (
    current_state q target exam now,
    raise_if-pass (not (sha256_match target)) _ _ (ap not d)
        ∙ raise_if-pass (not now.is_aware) _ _ (ap not a),
    ground arith,
    ground arith,
  )
