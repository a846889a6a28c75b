-- ===== src/Effects/Tests.antt =====
-- The theorems on effect_control.py at concrete interceptors, calls and values.
use cc_suite.Prelude.{
  ℕ, ◌≡◌, refl, Bool, true, false, ◌&&◌, ◌||◌, Option, none, some, List, [], ◌∷◌, String, str_eq,
  Result, ok, arith, All, ◌⊎◌, nonblank, is_space, if◌then◌else◌, is_ok-value, ◌∙◌,
}
use cc_suite.Prelude.Fractions.{fractions}
use cc_suite.Graders.Outcome.{aggregate, qualifiable, AggregateOutcome}
use cc_suite.Graders.Cases.{CaseResult, CaseAttemptResult, attempt_post_init, case_post_init}
use cc_suite.Graders.Green.{aggregate_made_exact}
use cc_suite.Graders.Tests.{critical_case, suite_policy}
use cc_suite.Effects.Attempt.{
  attempt_of, attempt_from_effect_ledger, unauthorized_call_is_recorded, unauthorized_call_blocks,
}
use cc_suite.Effects.Redact.{
  Value, text, mapping, other, null, Items, nil, cons, Fields, end, field, Patterns, redact,
  redact_text,
}
use cc_suite.Effects.Ledger.{
  ExecutionMode, ActionClass, Digests, grade_effect_attempts, is_v1_implemented, record_effect,
  verdict_on,
}
use cc_suite.Effects.Calls.{
  ChokepointSpec, EffectInterceptor, Call, new_interceptor, run_calls, should_intercept,
  call_wrapper, dispatch, call_args, touch_of, can_simulate, evidence_of,
}
use cc_suite.Effects.Evidence.{Answers, calls_leave_evidence}
use cc_suite.Effects.Graded.{all_unseen, graded_calls_exact}
use cc_suite.Effects.Install.{
  plain, Bindings, Process, Installation, InstallReport, InstallFault, install, is_place,
  optional_by_name, wrap_all, resolve, walk, split_path, wrap_at, wrapped, bind, rebind_aliases,
  rebind_names, set_binding, conclude, hard_failures,
}
use cc_suite.Effects.Restore.{IsTakenBack, install_is_undone}
use cc_suite.Effects.Enforced.{IsWrapped, strict_install_enforces}

-- A key that is one of two words names a credential, and nothing else is recognized.
instance abbrev simple_patterns : Patterns
simple_patterns = record {
  substitutions = [];
  is_secret_key = λ s. str_eq s "token" || str_eq s "password";
  sha256 = λ bs. "d";
  str = λ v. elim v [ text s ↦ some s | other name ↦ none | _ ↦ some "?" ];
  decimal = λ n. "1";
  str_uuid = λ u. "u";
  str_datetime = λ t. "t";
}

instance abbrev constant_digest : Digests
constant_digest = record { body_sha256 = λ b. some "e" }

abbrev headers : Value
headers = mapping (field (text "token") (text "t0p") (field (text "to") (text "x") end))

abbrev captured : Value
captured = mapping (field (text "token") (text "[REDACTED]") (field (text "to") (text "x") end))

-- An object whose `__str__` raises, as a key.
abbrev spoiled : Value
spoiled = mapping (field (other "Key") null end)

-- A call is an effect when it has an argument.
abbrev has_argument : Items → Fields → Option Bool
has_argument nil kwargs = some false
has_argument (cons x xs) kwargs = some true

abbrev send_mail : ChokepointSpec
send_mail = record {
  name = "mail.send";
  integration = "mail";
  action_class = ActionClass.irreversible;
  module_name = "mail";
  attr_path = "send";
  is_method = false;
  describe = λ args kwargs. none;
  simulate_key = "deny_always";
  applies = some has_argument;
  rebind_aliases = true;
  optional = false;
}

abbrev post : ChokepointSpec
post = record send_mail { name = "http.post"; attr_path = "post"; simulate_key = "none" }

abbrev calls : List Call
calls =
    record { spec = send_mail; args = cons headers nil; kwargs = end; now = some "t1" }
    ∷ record { spec = send_mail; args = nil; kwargs = end; now = some "t2" }
    ∷ record { spec = post; args = cons headers nil; kwargs = end; now = some "t3" }
    ∷ record { spec = post; args = cons spoiled nil; kwargs = end; now = some "t4" }
    ∷ []

abbrev simulating : EffectInterceptor
simulating = record {
  mode = ExecutionMode.simulated;
  chokepoints = send_mail ∷ post ∷ [];
  registered = [];
  strict_install = true;
  ledger = record { actor = "a"; run_id = "r"; case_id = "c"; entries = []; sequence = 0 };
}

calls_leave_evidence_example :
    Answers ExecutionMode.simulated 0 calls
      (run_calls simulating calls).0
      (run_calls simulating calls).1.ledger.entries
unfolding new_interceptor is_v1_implemented
calls_leave_evidence_example =
    calls_leave_evidence ExecutionMode.simulated "a" "r" "c" (send_mail ∷ post ∷ []) [] true calls
      refl

graded_calls_exact_example :
    str_eq
      (grade_effect_attempts (run_calls simulating calls).1.ledger ("http.post" ∷ [])).outcome
      "PASS"
    ≡ all_unseen ("http.post" ∷ []) calls (run_calls simulating calls).0
unfolding new_interceptor is_v1_implemented
graded_calls_exact_example =
    graded_calls_exact ExecutionMode.simulated "a" "r" "c" (send_mail ∷ post ∷ []) [] true calls
      ("http.post" ∷ []) refl

-- The module `mail`, 1, with its two functions, and the module 2 that has one of them by another
-- name.
abbrev imported : String → Option ℕ
imported s = if str_eq s "mail" then some 1 else none

abbrev names_of : ℕ → List String
names_of m = "send" ∷ "post" ∷ "alias" ∷ []

abbrev process : Process
process = record {
  import_module = imported;
  modules = 1 ∷ 2 ∷ [];
  names = names_of;
  is_settable = λ o n. true;
}

abbrev bindings : Bindings
bindings o n =
    if is_place 1 "send" o n
    then some (plain 10)
    else if is_place 1 "post" o n
    then some (plain 11)
    else if is_place 2 "alias" o n
    then some (plain 10)
    else none

abbrev untouched : Installation
untouched = record { bound = bindings; active = none; undo = []; report = none }

install_is_undone_example :
    IsTakenBack process 7 untouched (install process 7 (send_mail ∷ post ∷ []) true untouched)
install_is_undone_example = install_is_undone process 7 (send_mail ∷ post ∷ []) true untouched refl

abbrev both : InstallReport
both = record { installed = "mail.send" ∷ "http.post" ∷ []; unavailable = [] }

abbrev wrapped_process : Installation
wrapped_process = (install process 7 (send_mail ∷ post ∷ []) true untouched).1

abbrev pair :
    Result InstallFault InstallReport
    → Installation
    → Result InstallFault InstallReport × Installation
pair x y = (x, y)

install-both :
    install process 7 (send_mail ∷ post ∷ []) true untouched ≡ pair (ok both) wrapped_process
unfolding install wrap_all resolve walk split_path wrap_at wrapped bind rebind_aliases rebind_names
    set_binding conclude hard_failures optional_by_name
install-both = refl

strict_install_enforces_example :
    All
      (λ s.
        IsWrapped process untouched.bound wrapped_process.bound s
        ⊎ (optional_by_name (send_mail ∷ post ∷ []) s.name ≡ true))
      (send_mail ∷ post ∷ [])
strict_install_enforces_example =
    strict_install_enforces process 7 (send_mail ∷ post ∷ []) untouched install-both

unauthorized_call_is_recorded_example :
    (a : CaseAttemptResult) × (attempt_from_effect_ledger "c" 1 []
        (run_calls simulating calls).1.ledger
        []
        (0, 1)
        5
      ≡ ok a)
    × (a.forbidden_effect_attempted ≡ true)
unfolding new_interceptor is_v1_implemented should_intercept call_args nonblank is_space run_calls
    call_wrapper dispatch evidence_of redact can_simulate record_effect
unauthorized_call_is_recorded_example =
    unauthorized_call_is_recorded ExecutionMode.simulated "a" "r" "c" (send_mail ∷ post ∷ []) []
      true calls [] "c" 1 [] (0, 1) 5 refl refl refl (omega arith)

abbrev harmful_attempt : CaseAttemptResult
harmful_attempt =
    attempt_of "c" 1 [] (grade_effect_attempts (run_calls simulating calls).1.ledger []) (0, 1) 5

abbrev harmful_case : CaseResult
harmful_case = record critical_case { attempts = harmful_attempt ∷ [] }

named : (nonblank "suite" && nonblank "1" && nonblank "subject") ≡ true
unfolding nonblank is_space
named = refl

abbrev aggregated :
    (o : AggregateOutcome) × (aggregate (harmful_case ∷ []) suite_policy "suite" "1" "subject"
      ≡ ok o)
aggregated =
    is_ok-value _
      (aggregate_made_exact (harmful_case ∷ []) suite_policy "suite" "1" "subject" ∙ named)

unauthorized_call_blocks_example : qualifiable aggregated.0 ≡ false
unfolding new_interceptor is_v1_implemented should_intercept call_args nonblank is_space
    case_post_init attempt_from_effect_ledger attempt_post_init grade_effect_attempts verdict_on
    run_calls call_wrapper dispatch record_effect touch_of can_simulate redact_text evidence_of
    redact
unauthorized_call_blocks_example =
    unauthorized_call_blocks ExecutionMode.simulated "a" "r" "c" (send_mail ∷ post ∷ []) [] true
      calls [] "c" 1 [] (0, 1) 5 [] [] [] [] harmful_case suite_policy "suite" "1" "subject" refl
      refl refl refl (refl, tt) aggregated.1
