-- ===== src/Effects/Attempt.antt =====
-- `attempt_from_effect_ledger` (graders.py, lines 753-785), and what an effect that no case authorizes
-- does to the release that its attempt stands in.
use cc_suite.Prelude.{
  ℕ, ◌≤◌, ◌≡◌, refl, ◌∙◌, Bool, true, false, not, ◌&&◌, List, [], ◌∷◌, ◌++◌, String, str_eq, Result,
  ok, nonblank, nonblank-append_left, nonblank-append_right, any, All, arith, if◌then◌else◌,
  Bool-cases, inl, inr, length, raise_if-ok, ltb, is_space,
}
use cc_suite.Prelude.Floats.{Floats}
use cc_suite.Domain.{Refusal}
use cc_suite.Domain.Waivers.{SuitePolicy}
use cc_suite.Graders.Verdict.{GraderResult}
use cc_suite.Graders.Cases.{CaseAttemptResult, CaseResult, attempt_post_init, case_post_init}
use cc_suite.Graders.Outcome.{AggregateOutcome, aggregate, qualifiable}
use cc_suite.Graders.Green.{IsGreen, qualifiable-IsGreen}
use cc_suite.Effects.Redact.{Patterns}
use cc_suite.Effects.Ledger.{
  ExecutionMode, AttemptedEffect, EffectLedger, Digests, EffectVerdict, verdict_on,
  grade_effect_attempts,
}
use cc_suite.Effects.Calls.{
  ChokepointSpec, Fixture, EffectInterceptor, Call, new_interceptor, run_calls,
}
use cc_suite.Effects.Graded.{all_unseen, graded_calls_exact}

words-nonblank : nonblank " unauthorized external effect attempt(s) recorded: " ≡ true
unfolding nonblank is_space
words-nonblank = refl

module _ ⦃fl : Floats⦄ ⦃p : Patterns⦄ where
  abbrev pub attempt_of :
      String → ℕ → List GraderResult → EffectVerdict → fl.Float → ℕ → CaseAttemptResult
  attempt_of case_id attempt_number results verdict cost_usd latency_ms =
      let forbidden = not (str_eq verdict.outcome "PASS") in
      record {
        case_id = case_id;
        attempt_number = attempt_number;
        grader_results = results;
        forbidden_effect_attempted = forbidden;
        forbidden_effect_detail = if forbidden then verdict.reason else "";
        cost_usd = cost_usd;
        latency_ms = latency_ms;
      }

  unfoldable pub attempt_from_effect_ledger :
      String
      → ℕ
      → List GraderResult
      → EffectLedger
      → List String
      → fl.Float
      → ℕ
      → Result Refusal CaseAttemptResult
  attempt_from_effect_ledger case_id attempt_number results ledger allowed cost_usd latency_ms =
      attempt_post_init (
        attempt_of case_id attempt_number results (grade_effect_attempts ledger allowed) cost_usd
          latency_ms)

  fail_reason :
      (es : List AttemptedEffect)
      → str_eq (verdict_on es).outcome "PASS" ≡ false
      → nonblank (verdict_on es).reason ≡ true
  unfolding verdict_on
  fail_reason [] h = cc
  fail_reason (e ∷ es) h =
      nonblank-append_right (p.decimal (length (e ∷ es))) _ (
        nonblank-append_left " unauthorized external effect attempt(s) recorded: " _ words-nonblank)

  attempt_of-made :
      (a : CaseAttemptResult)
      → nonblank a.case_id ≡ true
      → 1 ≤ a.attempt_number
      → nonblank a.forbidden_effect_detail ≡ true
      → attempt_post_init a ≡ ok a
  unfolding attempt_post_init
  attempt_of-made a h k l = rw (h, l) (ground arith)

  post_init-same : (a b : CaseAttemptResult) → attempt_post_init a ≡ ok b → b ≡ a
  unfolding attempt_post_init
  post_init-same a b h =
      let (_, h1) = raise_if-ok (not (nonblank a.case_id)) Refusal.blank_case _ h in
      let (_, h2) = raise_if-ok (ltb a.attempt_number 1) Refusal.attempt_below_one _ h1 in
      let (_, h3) =
        raise_if-ok (a.forbidden_effect_attempted && not (nonblank a.forbidden_effect_detail))
          Refusal.unnamed_forbidden_effect _ h2 in
      cc

  has_forbidden :
      (before after : List CaseAttemptResult) (a : CaseAttemptResult)
      → a.forbidden_effect_attempted ≡ true
      → any (λ x. x.forbidden_effect_attempted) (before ++ a ∷ after) ≡ true
  has_forbidden [] after a h = rw h refl
  has_forbidden (x ∷ xs) after a h = ground (arith, has_forbidden xs after a h)

  All-middle {ℓ κ} :
      {A : Type ℓ} (P : A → Type κ) (xs ys : List A) (y : A) → All P (xs ++ y ∷ ys) → P y
  All-middle P [] ys y h = h.0
  All-middle P (x ∷ xs) ys y h = All-middle P xs ys y h.1

  not_qualifiable :
      (before after : List CaseResult) (c : CaseResult) (policy : SuitePolicy)
      (suite version family : String) {o : AggregateOutcome}
      → any (λ x. x.forbidden_effect_attempted) c.attempts ≡ true
      → All (λ x. case_post_init x ≡ ok x) (before ++ c ∷ after)
      → aggregate (before ++ c ∷ after) policy suite version family ≡ ok o
      → qualifiable o ≡ false
  not_qualifiable before after c policy suite version family {o} h valid e =
      elim (Bool-cases (qualifiable o)) [
        | inl q ↦
            (let green =
                qualifiable-IsGreen (before ++ c ∷ after) policy suite version family valid e q in
              let safe = (All-middle (IsGreen policy family) before after c green).harmless in cc)
        | inr q ↦ q
      ]

  module _ ⦃dig : Digests⦄ where
    -- For an interceptor that `__init__` made and any calls of the target, of which at least one is
    -- neither let through as no effect nor to an authorized chokepoint nor left by an error that came
    -- before the ledger had its entry, and for a case id that is not blank and an attempt number from
    -- 1: the adapter makes an attempt from the ledger, one that has attempted a forbidden effect.
    pub unauthorized_call_is_recorded :
        (mode : ExecutionMode) (actor run_id case : String) (chokepoints : List ChokepointSpec)
        (registered : List (String × Fixture)) (strict : Bool) (cs : List Call)
        (allowed : List String) {i : EffectInterceptor} (case_id : String) (n : ℕ)
        (results : List GraderResult) (cost : fl.Float) (latency : ℕ)
        → new_interceptor mode actor run_id case chokepoints registered strict ≡ ok i
        → all_unseen allowed cs (run_calls i cs).0 ≡ false
        → nonblank case_id ≡ true
        → 1 ≤ n
        → (a : CaseAttemptResult) × (attempt_from_effect_ledger case_id n results
              (run_calls i cs).1.ledger
              allowed
              cost
              latency
            ≡ ok a)
          × (a.forbidden_effect_attempted ≡ true)
    unfolding attempt_from_effect_ledger grade_effect_attempts
    unauthorized_call_is_recorded mode actor run_id case chokepoints registered strict cs allowed
          {i} case_id n results cost latency h u k l =
        let v = grade_effect_attempts (run_calls i cs).1.ledger allowed in
        let failed : str_eq v.outcome "PASS" ≡ false =
          graded_calls_exact mode actor run_id case chokepoints registered strict cs allowed h
          ∙ u in
        let reason = fail_reason _ failed in
        let a = attempt_of case_id n results v cost latency in
        let detail : nonblank a.forbidden_effect_detail ≡ true = rw failed reason in
        (a, attempt_of-made a k l detail, rw failed refl)

    -- For an interceptor that `__init__` made and any calls of the target, of which at least one is
    -- neither let through as no effect nor to an authorized chokepoint nor left by an error that came
    -- before the ledger had its entry: an attempt that the adapter makes from the ledger cannot stand
    -- in a qualifiable release. Any aggregate that is made over validly constructed cases, one of which
    -- retains that attempt, is not qualifiable, wherever the attempt and its case stand and whatever
    -- the other attempts are.
    pub unauthorized_call_blocks :
        (mode : ExecutionMode) (actor run_id case : String) (chokepoints : List ChokepointSpec)
        (registered : List (String × Fixture)) (strict : Bool) (cs : List Call)
        (allowed : List String) {i : EffectInterceptor} (case_id : String) (n : ℕ)
        (results : List GraderResult) (cost : fl.Float) (latency : ℕ) {a : CaseAttemptResult}
        (first others : List CaseAttemptResult) (before after : List CaseResult) (c : CaseResult)
        (policy : SuitePolicy) (suite version family : String) {o : AggregateOutcome}
        → new_interceptor mode actor run_id case chokepoints registered strict ≡ ok i
        → all_unseen allowed cs (run_calls i cs).0 ≡ false
        → attempt_from_effect_ledger case_id n results
            (run_calls i cs).1.ledger
            allowed
            cost
            latency
          ≡ ok a
        → c.attempts ≡ first ++ a ∷ others
        → All (λ x. case_post_init x ≡ ok x) (before ++ c ∷ after)
        → aggregate (before ++ c ∷ after) policy suite version family ≡ ok o
        → qualifiable o ≡ false
    unfolding attempt_from_effect_ledger grade_effect_attempts
    unauthorized_call_blocks mode actor run_id case chokepoints registered strict cs allowed {i}
          case_id n results cost latency {a} first others before after c policy suite version family
          h u e k valid made =
        let v = grade_effect_attempts (run_calls i cs).1.ledger allowed in
        let failed : str_eq v.outcome "PASS" ≡ false =
          graded_calls_exact mode actor run_id case chokepoints registered strict cs allowed h
          ∙ u in
        let same = post_init-same (attempt_of case_id n results v cost latency) a e in
        let flagged : a.forbidden_effect_attempted ≡ true = rw (same, failed) refl in
        not_qualifiable before after c policy suite version family
          (rw k (has_forbidden first others a flagged)) valid made
