-- ===== src/Effects/Calls.antt =====
-- `EffectInterceptor.__init__`, the wrapper around a chokepoint and `_dispatch`, with the default
-- provider of simulated results (effect_control.py, lines 537-643, 706-734 and 838-902).
use cc_suite.Prelude.{
  Bool, true, false, not, ◌||◌, Option, none, some, List, [], ◌∷◌, String, str_eq, str_append,
  Result, ok, err, raise_if, ◌>>◌, is_some, if◌then◌else◌,
}
use cc_suite.Effects.Redact.{
  Value, text, mapping, sequence, Items, nil, cons, Fields, end, field, Patterns, redact,
  redact_text, and_then,
}
use cc_suite.Effects.Ledger.{
  ExecutionMode, ActionClass, EffectState, AttemptedEffect, EffectLedger, Digests, Touch,
  record_effect, is_v1_implemented,
}

-- A chokepoint. `describe` and `applies` are the adopter's functions; a call of one that raises gives
-- `none`.
pub record ChokepointSpec : Type 0 where
  pub name : String
  pub integration : String
  pub action_class : ActionClass
  pub module_name : String
  pub attr_path : String
  pub is_method : Bool
  pub describe : Items → Fields → Option String
  pub simulate_key : String
  pub applies : Option (Items → Fields → Option Bool)
  pub rebind_aliases : Bool
  pub optional : Bool

-- `ChokepointSpec.tool_name`
abbrev pub tool_name : ChokepointSpec → String
tool_name s = str_append s.module_name (str_append ":" s.attr_path)

-- The stand-ins of the default provider, each with the id of the effect it stands for.
pub data Simulated : Type 0 where
  nothing : Simulated
  simulated_true http_response sdk_message payload : String → Simulated
  fixture_value : Value → Simulated

-- A result that an adopter registered; a call of one that raises gives `none`.
abbrev pub Fixture : Type 0
Fixture = Items → Fields → String → Option Value

abbrev pub find_fixture : List (String × Fixture) → String → Option Fixture
find_fixture [] name = none
find_fixture ((key, f) ∷ rest) name =
    let later = find_fixture rest name in if str_eq key name then some f else later

-- `DefaultSimulationProvider.can_simulate` over the fixtures that are registered.
unfoldable pub can_simulate : List (String × Fixture) → ChokepointSpec → Bool
can_simulate registered s =
    is_some (find_fixture registered s.name) || not (str_eq s.simulate_key "deny_always")

pub data ControlError : Type 0 where
  mode_not_implemented : ExecutionMode → ControlError
  no_chokepoints : ControlError
  no_simulated_form : String → ControlError
  -- whatever a fixture raised
  fixture_raised : ControlError

-- The stand-in that a key names.
unfoldable pub stand_in : ChokepointSpec → String → Result ControlError Simulated
stand_in s effect_id =
    if str_eq s.simulate_key "deny_always"
    then err (no_simulated_form s.name)
    else if str_eq s.simulate_key "none"
    then ok nothing
    else if str_eq s.simulate_key "bool_true"
    then ok (simulated_true effect_id)
    else if str_eq s.simulate_key "http_response"
    then ok (http_response effect_id)
    else if str_eq s.simulate_key "anthropic.sdk_message"
    then ok (sdk_message effect_id)
    else ok (payload effect_id)

abbrev fixture_result : Option Value → Result ControlError Simulated
fixture_result none = err fixture_raised
fixture_result (some v) = ok (fixture_value v)

abbrev pub override_or :
    Option Fixture
    → Items
    → Fields
    → String
    → Result ControlError Simulated
    → Result ControlError Simulated
override_or (some f) args kwargs effect_id default = fixture_result (f args kwargs effect_id)
override_or none args kwargs effect_id default = default

-- `DefaultSimulationProvider.simulate`
unfoldable pub simulate :
    List (String × Fixture)
    → ChokepointSpec
    → Items
    → Fields
    → String
    → Result ControlError Simulated
unfolding stand_in
simulate registered s args kwargs effect_id =
    override_or (find_fixture registered s.name) args kwargs effect_id (stand_in s effect_id)

pub record EffectInterceptor : Type 0 where
  pub mode : ExecutionMode
  pub chokepoints : List ChokepointSpec
  pub registered : List (String × Fixture)
  pub strict_install : Bool
  pub ledger : EffectLedger

abbrev pub is_empty_list {ℓ} : {A : Type ℓ} → List A → Bool
is_empty_list [] = true
is_empty_list (x ∷ xs) = false

-- `EffectInterceptor.__init__`
unfoldable pub new_interceptor :
    ExecutionMode
    → String
    → String
    → String
    → List ChokepointSpec
    → List (String × Fixture)
    → Bool
    → Result ControlError EffectInterceptor
new_interceptor mode actor run_id case_id chokepoints registered strict = do
  raise_if (not (is_v1_implemented mode)) (mode_not_implemented mode)
  raise_if (is_empty_list chokepoints) no_chokepoints
  ok (record {
    mode = mode;
    chokepoints = chokepoints;
    registered = registered;
    strict_install = strict;
    ledger = record {
      actor = actor;
      run_id = run_id;
      case_id = case_id;
      entries = [];
      sequence = 0;
    };
  })

-- A call of a wrapped callable, with the time at which it is made, `none` where the clock raises.
pub record Call : Type 0 where
  pub spec : ChokepointSpec
  pub args : Items
  pub kwargs : Fields
  pub now : Option String

-- What the caller sees.
pub data CallResult : Type 0 where
  ran_original : CallResult
  denied : AttemptedEffect → CallResult
  simulated_result : Simulated → CallResult
  raised : ControlError → CallResult
  -- an error that came before the ledger had an entry
  escaped : CallResult

abbrev tail_items : Items → Items
tail_items nil = nil
tail_items (cons x xs) = xs

-- `args[1:] if spec.is_method else args`
unfoldable pub call_args : Call → Items
call_args c = if c.spec.is_method then tail_items c.args else c.args

abbrev decided : Option Bool → Bool
decided none = true
decided (some b) = b

-- Whether the wrapper intercepts the call: a predicate that raises does not let it through.
unfoldable pub should_intercept : Call → Bool
unfolding call_args
should_intercept c = elim c.spec.applies [
  | none ↦ true
  | some f ↦ decided (f (call_args c) c.kwargs)
]

abbrev or_tool_name : Option String → ChokepointSpec → String
or_tool_name none s = tool_name s
or_tool_name (some t) s = t

abbrev pub answer : Result ControlError Simulated → CallResult
answer (ok s) = simulated_result s
answer (err e) = raised e

abbrev pub denied_or : Option AttemptedEffect → CallResult
denied_or none = escaped
denied_or (some entry) = denied entry

module _ ⦃p : Patterns⦄ where
  -- The arguments as they may stand in the ledger, `none` where their redaction raises.
  unfoldable pub evidence_of : Call → Option Value
  unfolding call_args
  evidence_of c = and_then (redact (sequence (call_args c))) (λ args.
      and_then (redact (mapping c.kwargs))
        (λ kwargs. some (mapping (field (text "args") args (field (text "kwargs") kwargs end)))))

  -- What `_record` hands to the ledger.
  unfoldable pub touch_of : EffectInterceptor → Call → EffectState → Value → Touch
  unfolding call_args
  touch_of i c state evidence = record {
    chokepoint = c.spec.name;
    integration = c.spec.integration;
    tool_name = tool_name c.spec;
    action_class = c.spec.action_class;
    state = state;
    mode = i.mode;
    target = redact_text (or_tool_name (c.spec.describe (call_args c) c.kwargs) c.spec);
    args_redacted = evidence;
  }

-- The entry's effect is stood in for, where there is an entry.
unfoldable pub simulated_or : List (String × Fixture) → Call → Option AttemptedEffect → CallResult
unfolding call_args simulate
simulated_or registered c none = escaped
simulated_or registered c (some entry) =
    answer (simulate registered c.spec (call_args c) c.kwargs entry.effect_id)

module _ ⦃p : Patterns⦄ ⦃dig : Digests⦄ where
  -- `_record`, with the clock read first.
  unfoldable pub record_at :
      EffectInterceptor → Touch → Option String → Option AttemptedEffect × EffectInterceptor
  record_at i t none = (none, i)
  record_at i t (some now) =
      let (entry, ledger) = record_effect i.ledger t now in (entry, record i { ledger = ledger })

  unfoldable pub denies : EffectInterceptor → Call → Value → CallResult × EffectInterceptor
  unfolding record_at
  denies i c evidence =
      let (entry, after) = record_at i (touch_of i c EffectState.blocked evidence) c.now in
      (denied_or entry, after)

  unfoldable pub simulates : EffectInterceptor → Call → Value → CallResult × EffectInterceptor
  unfolding record_at simulated_or
  simulates i c evidence =
      let (entry, after) = record_at i (touch_of i c EffectState.simulated evidence) c.now in
      (simulated_or i.registered c entry, after)

  unfoldable pub dispatch_by :
      ExecutionMode → EffectInterceptor → Call → Value → CallResult × EffectInterceptor
  unfolding denies simulates
  dispatch_by ExecutionMode.deny_effects i c evidence = denies i c evidence
  dispatch_by ExecutionMode.simulated i c evidence =
      if not (can_simulate i.registered c.spec) then denies i c evidence else simulates i c evidence
  dispatch_by mode i c evidence = (raised (mode_not_implemented mode), i)

  unfoldable pub dispatch_with :
      EffectInterceptor → Call → Option Value → CallResult × EffectInterceptor
  unfolding dispatch_by
  dispatch_with i c none = (escaped, i)
  dispatch_with i c (some evidence) = dispatch_by i.mode i c evidence

  -- `_dispatch`
  unfoldable pub dispatch : EffectInterceptor → Call → CallResult × EffectInterceptor
  unfolding dispatch_with
  dispatch i c = dispatch_with i c (evidence_of c)

  -- The wrapper that `_make_wrapper` makes.
  unfoldable pub call_wrapper : EffectInterceptor → Call → CallResult × EffectInterceptor
  call_wrapper i c = if not (should_intercept c) then (ran_original, i) else dispatch i c

  -- The calls that a target makes one after another, whatever it does with what a call raised.
  unfoldable pub run_calls : EffectInterceptor → List Call → List CallResult × EffectInterceptor
  run_calls i [] = ([], i)
  run_calls i (c ∷ cs) =
      let (result, after) = call_wrapper i c in
      let (results, last) = run_calls after cs in (result ∷ results, last)
