-- ===== src/Effects/Evidence.antt =====
-- The ledger against the calls that a target made (effect_control.py, lines 838-902).
use mathlib.Core.List.{append_assoc, append-nil}
use cc_suite.Prelude.{
  ℕ, suc, ◌≡◌, refl, sym, ap, ◌∙◌, subst, Bool, true, false, not, ◌||◌, Option, none, some, List,
  [], ◌∷◌, ◌++◌, String, str_eq, ok, is_some, is_ok-value, inl, inr, Bool-cases, arith, raise_if-ok,
  ◌⊎◌, err, Option-cases,
}
use cc_suite.Effects.Redact.{Value, Items, Fields, Patterns}
use cc_suite.Effects.Ledger.{
  ExecutionMode, EffectState, AttemptedEffect, Digests, record_effect, entry_of, is_v1_implemented,
  Body, body_of, append_entry,
}
use cc_suite.Effects.Calls.{
  ChokepointSpec, Simulated, Fixture, EffectInterceptor, Call, CallResult, ran_original, denied,
  simulated_result, simulate, can_simulate, simulates, dispatch_by, denies, override_or, stand_in,
  new_interceptor, should_intercept, touch_of, dispatch, call_wrapper, run_calls, call_args,
  find_fixture, mode_not_implemented, raised, escaped, fixture_raised, fixture_value, evidence_of,
  record_at, simulated_or, dispatch_with, denied_or, no_chokepoints, is_empty_list,
}

module _ ⦃p : Patterns⦄ ⦃dig : Digests⦄ where
  -- The interceptor whose ledger has counted one more, without and with an entry.
  abbrev counted : EffectInterceptor → EffectInterceptor
  counted i = record i { ledger = record i.ledger { sequence = suc i.ledger.sequence } }

  abbrev with_entry : EffectInterceptor → AttemptedEffect → EffectInterceptor
  with_entry i e = record i {
    ledger = record i.ledger {
      entries = i.ledger.entries ++ e ∷ [];
      sequence = suc i.ledger.sequence;
    };
  }

  -- The entry is the one that stands for a call, in this state and with this number.
  pub record IsEntryOf (n : ℕ) (c : Call) (state : EffectState) (e : AttemptedEffect) : Type 0 where
    pub numbered : e.body.sequence ≡ suc n
    pub chokepoint : e.body.chokepoint ≡ c.spec.name
    pub state_of : e.body.state ≡ state

  -- The JSON encoder raises on the body of an entry for the call.
  pub record IsUnprintable (n : ℕ) (c : Call) : Type 0 where
    pub body : Body
    pub numbered : body.sequence ≡ suc n
    pub chokepoint : body.chokepoint ≡ c.spec.name
    pub no_digest : dig.body_sha256 body ≡ none

  -- What one call can do.
  data Step (i : EffectInterceptor) (c : Call) : CallResult → EffectInterceptor → Type 0 where
    passes : should_intercept c ≡ false → Step i c ran_original i
    gives_up :
        should_intercept c ≡ true → (evidence_of c ≡ none) ⊎ (c.now ≡ none) → Step i c escaped i
    counts :
        should_intercept c ≡ true → IsUnprintable i.ledger.sequence c → Step i c escaped (counted i)
    blocks :
        (e : AttemptedEffect)
        → should_intercept c ≡ true
        → IsEntryOf i.ledger.sequence c EffectState.blocked e
        → Step i c (denied e) (with_entry i e)
    stands_in :
        (e : AttemptedEffect) (s : Simulated)
        → i.mode ≡ ExecutionMode.simulated
        → should_intercept c ≡ true
        → IsEntryOf i.ledger.sequence c EffectState.simulated e
        → Step i c (simulated_result s) (with_entry i e)
    fixture_fails :
        (e : AttemptedEffect)
        → i.mode ≡ ExecutionMode.simulated
        → should_intercept c ≡ true
        → IsEntryOf i.ledger.sequence c EffectState.simulated e
        → Step i c (raised fixture_raised) (with_entry i e)

  -- A chokepoint that can be simulated has a stand-in, or a fixture that raises.
  override-answers :
      (o : Option Fixture) (spec : ChokepointSpec) (args : Items) (kwargs : Fields)
      (effect_id : String)
      → (is_some o || not (str_eq spec.simulate_key "deny_always")) ≡ true
      → ((s : Simulated) × (override_or o args kwargs effect_id (stand_in spec effect_id) ≡ ok s))
        ⊎ (override_or o args kwargs effect_id (stand_in spec effect_id) ≡ err fixture_raised)
  unfolding stand_in
  override-answers (some f) spec args kwargs effect_id h =
      elim (Option-cases (f args kwargs effect_id)) [
        | inl e ↦ inr (rw e refl)
        | inr (v, e) ↦ inl (fixture_value v, rw e refl)
      ]
  override-answers none spec args kwargs effect_id h =
      let key : str_eq spec.simulate_key "deny_always" ≡ false = ground arith in
      inl (is_ok-value _ (rw key (ground arith)))

  simulated-Step :
      (i : EffectInterceptor) (c : Call) (e : AttemptedEffect)
      → can_simulate i.registered c.spec ≡ true
      → i.mode ≡ ExecutionMode.simulated
      → should_intercept c ≡ true
      → IsEntryOf i.ledger.sequence c EffectState.simulated e
      → Step i c (simulated_or i.registered c (some e)) (with_entry i e)
  unfolding simulated_or can_simulate simulate
  simulated-Step i c e h m k of_call =
      let found = find_fixture i.registered c.spec.name in
      elim (override-answers found c.spec (call_args c) c.kwargs e.effect_id h) [
        | inl (s, x) ↦ rw x (stands_in e s m k of_call)
        | inr x ↦ rw x (fixture_fails e m k of_call)
      ]

  -- What the ledger does for a call, whatever becomes of the entry.
  recorded-Step :
      (result : Option AttemptedEffect → CallResult) (i : EffectInterceptor) (c : Call)
      (state : EffectState) (evidence : Value)
      → should_intercept c ≡ true
      → result none ≡ escaped
      → ((e : AttemptedEffect)
          → IsEntryOf i.ledger.sequence c state e
          → Step i c (result (some e)) (with_entry i e))
      → Step i c
          (result (record_at i (touch_of i c state evidence) c.now).0)
          (record_at i (touch_of i c state evidence) c.now).1
  unfolding record_at record_effect append_entry touch_of
  recorded-Step result i c state evidence k none_left step = at_time c.now refl
    where
      digested :
          (b : Body) (o : Option String)
          → dig.body_sha256 b ≡ o
          → b.sequence ≡ suc i.ledger.sequence
          → b.chokepoint ≡ c.spec.name
          → b.state ≡ state
          → let r = append_entry (counted i).ledger b o in
            Step i c (result r.0) (record i { ledger = r.1 })
      digested b none x n name st =
          rw none_left
            (counts k (record { body = b; numbered = n; chokepoint = name; no_digest = x }))
      digested b (some d) x n name st =
          step (entry_of b d) (record { numbered = n; chokepoint = name; state_of = st })

      at_time :
          (o : Option String)
          → c.now ≡ o
          → Step i c
              (result (record_at i (touch_of i c state evidence) o).0)
              (record_at i (touch_of i c state evidence) o).1
      at_time none x = rw none_left (gives_up k (inr x))
      at_time (some now) x =
          digested (body_of i.ledger (touch_of i c state evidence) now) _ refl refl refl refl

  denies-Step :
      (i : EffectInterceptor) (c : Call) (evidence : Value)
      → should_intercept c ≡ true
      → Step i c (denies i c evidence).0 (denies i c evidence).1
  unfolding denies
  denies-Step i c evidence k =
      recorded-Step denied_or i c EffectState.blocked evidence k refl
        (λ e of_call. blocks e k of_call)

  dispatch_by-Step :
      (m : ExecutionMode) (i : EffectInterceptor) (c : Call) (evidence : Value)
      → i.mode ≡ m
      → is_v1_implemented m ≡ true
      → should_intercept c ≡ true
      → Step i c (dispatch_by m i c evidence).0 (dispatch_by m i c evidence).1
  unfolding dispatch_by is_v1_implemented simulates simulated_or
  dispatch_by-Step ExecutionMode.deny_effects i c ev w h k = denies-Step i c ev k
  dispatch_by-Step ExecutionMode.simulated i c ev w h k =
      elim (Bool-cases (can_simulate i.registered c.spec)) [
        | inl x ↦ rw x (
            recorded-Step (simulated_or i.registered c) i c EffectState.simulated ev k refl
              (λ e of_call. simulated-Step i c e x w k of_call))
        | inr x ↦ rw x (denies-Step i c ev k)
      ]
  dispatch_by-Step ExecutionMode.test_account i c ev w h k = cc
  dispatch_by-Step ExecutionMode.shadow i c ev w h k = cc
  dispatch_by-Step ExecutionMode.supervised_live i c ev w h k = cc

  dispatch-Step :
      (i : EffectInterceptor) (c : Call)
      → is_v1_implemented i.mode ≡ true
      → should_intercept c ≡ true
      → Step i c (dispatch i c).0 (dispatch i c).1
  unfolding dispatch dispatch_with
  dispatch-Step i c h k = elim (Option-cases (evidence_of c)) [
    | inl e ↦ rw e (gives_up k (inl e))
    | inr (ev, e) ↦ rw e (dispatch_by-Step i.mode i c ev refl h k)
  ]

  call_wrapper-Step :
      (i : EffectInterceptor) (c : Call)
      → is_v1_implemented i.mode ≡ true
      → Step i c (call_wrapper i c).0 (call_wrapper i c).1
  unfolding call_wrapper
  call_wrapper-Step i c h = elim (Bool-cases (should_intercept c)) [
    | inl e ↦ rw e (dispatch-Step i c h e)
    | inr e ↦ rw e (passes e)
  ]

  -- The results and the new entries that some calls may have, the first number to give being the one
  -- after `n`: a call that is not intercepted runs the original and leaves no entry; any other is denied
  -- or, in simulated mode, answered by a stand-in or left by its fixture's error, and has the entry that
  -- stands for it; or an error escaped before there was an entry, and then from one of three places:
  -- the redaction, the clock, or the encoder, which alone uses up a number.
  unfoldable pub Answers :
      ExecutionMode → ℕ → List Call → List CallResult → List AttemptedEffect → Type 0
  Answers m n [] [] [] = Unit
  Answers m n (c ∷ cs) (ran_original ∷ rs) es = (should_intercept c ≡ false) × Answers m n cs rs es
  Answers m n (c ∷ cs) (denied d ∷ rs) (e ∷ es) =
      (should_intercept c ≡ true)
      × (d ≡ e)
      × IsEntryOf n c EffectState.blocked e
      × Answers m (suc n) cs rs es
  Answers m n (c ∷ cs) (simulated_result s ∷ rs) (e ∷ es) =
      (should_intercept c ≡ true)
      × (m ≡ ExecutionMode.simulated)
      × IsEntryOf n c EffectState.simulated e
      × Answers m (suc n) cs rs es
  Answers m n (c ∷ cs) (raised x ∷ rs) (e ∷ es) =
      (should_intercept c ≡ true)
      × (m ≡ ExecutionMode.simulated)
      × (x ≡ fixture_raised)
      × IsEntryOf n c EffectState.simulated e
      × Answers m (suc n) cs rs es
  Answers m n (c ∷ cs) (escaped ∷ rs) es =
      (should_intercept c ≡ true)
      × ((((evidence_of c ≡ none) ⊎ (c.now ≡ none)) × Answers m n cs rs es)
          ⊎ (IsUnprintable n c × Answers m (suc n) cs rs es))
  Answers m n cs rs es = ⊥

  step-mode :
      {i : EffectInterceptor} {c : Call} {r : CallResult} {i' : EffectInterceptor}
      → Step i c r i'
      → i'.mode ≡ i.mode
  step-mode (passes h) = refl
  step-mode (gives_up h x) = refl
  step-mode (counts h x) = refl
  step-mode (blocks e h x) = refl
  step-mode (stands_in e s m h x) = refl
  step-mode (fixture_fails e m h x) = refl

  step-Answers :
      {i : EffectInterceptor} {c : Call} {r : CallResult} {i' : EffectInterceptor} (cs : List Call)
      (rs : List CallResult) (all_entries es : List AttemptedEffect)
      → Step i c r i'
      → all_entries ≡ i'.ledger.entries ++ es
      → Answers i'.mode i'.ledger.sequence cs rs es
      → (made : List AttemptedEffect) × (all_entries ≡ i.ledger.entries ++ made)
        × Answers i.mode i.ledger.sequence (c ∷ cs) (r ∷ rs) made
  unfolding Answers
  step-Answers cs rs total es (passes h) e a = (es, e, (h, a))
  step-Answers cs rs total es (gives_up h x) e a = (es, e, (h, inl (x, a)))
  step-Answers cs rs total es (counts h x) e a = (es, e, (h, inr (x, a)))
  step-Answers {i} cs rs total es (blocks d h x) e a =
      (d ∷ es, e ∙ append_assoc i.ledger.entries (d ∷ []) es, (h, refl, x, a))
  step-Answers {i} cs rs total es (stands_in d s m h x) e a =
      (d ∷ es, e ∙ append_assoc i.ledger.entries (d ∷ []) es, (h, m, x, a))
  step-Answers {i} cs rs total es (fixture_fails d m h x) e a =
      (d ∷ es, e ∙ append_assoc i.ledger.entries (d ∷ []) es, (h, m, refl, x, a))

  run_calls-Answers :
      (cs : List Call) (i : EffectInterceptor)
      → is_v1_implemented i.mode ≡ true
      → (made : List AttemptedEffect) × ((run_calls i cs).1.ledger.entries
          ≡ i.ledger.entries ++ made)
        × Answers i.mode i.ledger.sequence cs (run_calls i cs).0 made
  unfolding run_calls Answers
  run_calls-Answers [] i h = ([], sym (append-nil i.ledger.entries), tt)
  run_calls-Answers (c ∷ cs) i h =
      let step = call_wrapper-Step i c h in
      let next = (call_wrapper i c).1 in
      let (made, e, a) = run_calls-Answers cs next (ap is_v1_implemented (step-mode step) ∙ h) in
      step-Answers cs (run_calls next cs).0 _ made step e a

  new_interceptor-ok :
      (mode : ExecutionMode) (actor run_id case_id : String) (chokepoints : List ChokepointSpec)
      (registered : List (String × Fixture)) (strict : Bool) {i : EffectInterceptor}
      → new_interceptor mode actor run_id case_id chokepoints registered strict ≡ ok i
      → (is_v1_implemented i.mode ≡ true) × (i.ledger.entries ≡ []) × (i.ledger.sequence ≡ 0)
  unfolding new_interceptor is_v1_implemented
  new_interceptor-ok mode actor run_id case_id chokepoints registered strict h =
      let (v1, h1) = raise_if-ok (not (is_v1_implemented mode)) (mode_not_implemented mode) _ h in
      let (_, h2) = raise_if-ok (is_empty_list chokepoints) no_chokepoints _ h1 in
      let w : is_v1_implemented mode ≡ true = ground arith in (cc, cc, cc)

  -- For an interceptor that `__init__` made, and any calls that a target makes through its wrappers,
  -- whatever the target does with what they raise: a call whose predicate says no runs the original
  -- and leaves no entry. Every other call never runs it, and is denied, with its entry as the
  -- exception's record, or, in simulated mode only, answered by a stand-in or left by the error of its
  -- fixture, each with one entry, with the chokepoint's name and the state of what happened; or it
  -- raises before there is an entry, and then the redaction of its arguments, the clock, or the JSON
  -- encoding of its entry raised. The entries stand in the order of the calls, each with the number of
  -- its call, counted from 1 over the calls that came as far as the encoding, and there is no other
  -- entry.
  pub calls_leave_evidence :
      (mode : ExecutionMode) (actor run_id case_id : String) (chokepoints : List ChokepointSpec)
      (registered : List (String × Fixture)) (strict : Bool) (cs : List Call)
      {i : EffectInterceptor}
      → new_interceptor mode actor run_id case_id chokepoints registered strict ≡ ok i
      → Answers i.mode 0 cs (run_calls i cs).0 (run_calls i cs).1.ledger.entries
  calls_leave_evidence mode actor run_id case_id chokepoints registered strict cs {i} h =
      let (v1, none_yet, n) =
        new_interceptor-ok mode actor run_id case_id chokepoints registered strict h in
      let (made, e, a) = run_calls-Answers cs i v1 in
      let whole : (run_calls i cs).1.ledger.entries ≡ made = e ∙ ap (λ es. es ++ made) none_yet in
      subst (λ es. Answers i.mode 0 cs (run_calls i cs).0 es) (sym whole)
        (subst (λ k. Answers i.mode k cs (run_calls i cs).0 made) n a)
