-- ===== src/Effects/Graded.antt =====
-- The grade of a ledger against the calls that a target made (effect_control.py, lines 495-521).
use cc_suite.Prelude.{
  ℕ, suc, ◌≡◌, refl, ◌∙◌, Bool, not, ◌||◌, ◌&&◌, true, List, [], ◌∷◌, String, str_eq, ok, any, all,
  filter, Bool-cases, inl, inr,
}
use cc_suite.Effects.Redact.{Patterns}
use cc_suite.Effects.Ledger.{
  ExecutionMode, AttemptedEffect, Digests, is_allowed, verdict_on, grade_effect_attempts,
}
use cc_suite.Effects.Calls.{
  ChokepointSpec, Fixture, EffectInterceptor, Call, CallResult, ran_original, denied,
  simulated_result, raised, escaped, new_interceptor, should_intercept, run_calls,
}
use cc_suite.Effects.Evidence.{Answers, calls_leave_evidence}

-- The allowlist names a chokepoint.
abbrev pub is_named : List String → String → Bool
is_named allowed name = any (λ n. str_eq n name) allowed

-- The case lets a call be made: it is no effect, or its chokepoint is authorized.
abbrev pub is_authorized : List String → Call → Bool
is_authorized allowed c = not (should_intercept c) || is_named allowed c.spec.name

-- A call that is authorized, or whose error came before the ledger had an entry.
abbrev is_unseen : List String → Call → CallResult → Bool
is_unseen allowed c escaped = true
is_unseen allowed c r = is_authorized allowed c

-- The ledger has no entry of a call that is not authorized.
abbrev pub all_unseen : List String → List Call → List CallResult → Bool
all_unseen allowed (c ∷ cs) (r ∷ rs) = is_unseen allowed c r && all_unseen allowed cs rs
all_unseen allowed cs rs = true

module _ ⦃p : Patterns⦄ ⦃dig : Digests⦄ where
  passes_exact :
      (es : List AttemptedEffect) (allowed : List String)
      → str_eq (verdict_on (filter (λ e. not (is_allowed allowed e)) es)).outcome "PASS"
        ≡ all (is_allowed allowed) es
  unfolding verdict_on
  passes_exact [] allowed = refl
  passes_exact (e ∷ es) allowed = elim (Bool-cases (is_allowed allowed e)) [
    | inl h ↦ rw h (passes_exact es allowed)
    | inr h ↦ rw h refl
  ]

  all_authorized :
      (m : ExecutionMode) (n : ℕ) (allowed : List String) (cs : List Call) (rs : List CallResult)
      (es : List AttemptedEffect)
      → Answers m n cs rs es
      → all (is_allowed allowed) es ≡ all_unseen allowed cs rs
  unfolding Answers
  all_authorized m n allowed [] [] [] h = refl
  all_authorized m n allowed (c ∷ cs) (ran_original ∷ rs) es (h, k) =
      rw h (all_authorized m n allowed cs rs es k)
  all_authorized m n allowed (c ∷ cs) (denied d ∷ rs) (e ∷ es) (h, _, x, k) =
      rw (h, x.chokepoint, all_authorized m (suc n) allowed cs rs es k) refl
  all_authorized m n allowed (c ∷ cs) (simulated_result s ∷ rs) (e ∷ es) (h, _, x, k) =
      rw (h, x.chokepoint, all_authorized m (suc n) allowed cs rs es k) refl
  all_authorized m n allowed (c ∷ cs) (raised f ∷ rs) (e ∷ es) (h, _, _, x, k) =
      rw (h, x.chokepoint, all_authorized m (suc n) allowed cs rs es k) refl
  all_authorized m n allowed (c ∷ cs) (escaped ∷ rs) es (h, inl (_, k)) =
      all_authorized m n allowed cs rs es k
  all_authorized m n allowed (c ∷ cs) (escaped ∷ rs) es (h, inr (_, k)) =
      all_authorized m (suc n) allowed cs rs es k
  all_authorized m n allowed [] [] (e ∷ es) h = elim h [ ]
  all_authorized m n allowed [] (_ ∷ rs) es h = elim h [ ]
  all_authorized m n allowed (c ∷ cs) [] es h = elim h [ ]
  all_authorized m n allowed (c ∷ cs) (denied d ∷ rs) [] h = elim h [ ]
  all_authorized m n allowed (c ∷ cs) (simulated_result s ∷ rs) [] h = elim h [ ]
  all_authorized m n allowed (c ∷ cs) (raised f ∷ rs) [] h = elim h [ ]

  -- For an interceptor that `__init__` made, after any calls of the target through its wrappers: the
  -- grade is PASS exactly when every call was let through as no effect, went to an authorized
  -- chokepoint, or raised an error that came before the ledger had its entry. That a call was denied,
  -- or that its exception was swallowed, makes no difference.
  pub graded_calls_exact :
      (mode : ExecutionMode) (actor run_id case_id : String) (chokepoints : List ChokepointSpec)
      (registered : List (String × Fixture)) (strict : Bool) (cs : List Call)
      (allowed : List String) {i : EffectInterceptor}
      → new_interceptor mode actor run_id case_id chokepoints registered strict ≡ ok i
      → str_eq (grade_effect_attempts (run_calls i cs).1.ledger allowed).outcome "PASS"
        ≡ all_unseen allowed cs (run_calls i cs).0
  unfolding grade_effect_attempts
  graded_calls_exact mode actor run_id case_id chokepoints registered strict cs allowed {i} h =
      passes_exact (run_calls i cs).1.ledger.entries allowed
      ∙ all_authorized i.mode 0 allowed cs (run_calls i cs).0 _
          (calls_leave_evidence mode actor run_id case_id chokepoints registered strict cs h)
