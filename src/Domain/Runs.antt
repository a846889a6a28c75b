-- ===== src/Domain/Runs.antt =====
-- `EvalRun` and its life cycle (domain.py, lines 162-232).
use cc_suite.Prelude.{
  ◌≡◌, Bool, true, false, not, Option, none, some, List, [], ◌∷◌, String, Result, ok, err, raise_if,
  ◌>>◌, nonblank, if◌then◌else◌, arith, ◌⊎◌, inl, inr, refl, any, is_some, ◌∙◌,
}
use cc_suite.Domain.{
  DateTime, EvalRunState, same_run_state, is_terminal_run, run_transitions, Fault,
}

pub record EvalRun : Type 0 where
  pub tenant_id : String
  pub suite_id : String
  pub suite_version : String
  pub target_fingerprint : String
  pub state : EvalRunState
  pub started_at : Option DateTime
  pub ended_at : Option DateTime

-- `_require_tenant`
abbrev pub require_tenant : String → Result Fault (Unit {0})
require_tenant tenant_id = raise_if (not (nonblank tenant_id)) Fault.blank_tenant

-- A run as it is created: its tenant is checked.
unfoldable pub new : String → String → String → String → Result Fault EvalRun
new tenant suite version fingerprint = do
  require_tenant tenant
  ok (record {
    tenant_id = tenant;
    suite_id = suite;
    suite_version = version;
    target_fingerprint = fingerprint;
    state = EvalRunState.created;
    started_at = none;
    ended_at = none;
  })

assert_run_transition : EvalRunState → EvalRunState → Result Fault (Unit {0})
unfolding run_transitions
assert_run_transition current target =
    if same_run_state current target
    then ok tt
    else raise_if (not (run_transitions current target)) Fault.illegal_run_transition

-- `self.started_at` when a run enters RUNNING for the first time
started : EvalRunState → Option DateTime → DateTime → Option DateTime
started EvalRunState.running none moment = some moment
started _ before moment = before

-- `at or _now()`
abbrev pub moment_of : Option DateTime → DateTime → DateTime
moment_of none now = now
moment_of (some at) now = at

-- `transition`: the time is `at`, or else the clock's.
unfoldable pub transition :
    EvalRun → EvalRunState → Option DateTime → DateTime → Result Fault EvalRun
unfolding assert_run_transition started
transition run target at now = do
  assert_run_transition run.state target
  let moment = moment_of at now
  ok (record run {
    state = target;
    started_at = started target run.started_at moment;
    ended_at = if is_terminal_run target then some moment else run.ended_at;
  })

-- A caller's sequence of requests. A request that raises leaves the run as it was.
abbrev after : EvalRun → Result Fault EvalRun → EvalRun
after run (ok run') = run'
after run (err e) = run

unfoldable pub request : EvalRun → EvalRunState → DateTime → EvalRun
request run target now = after run (transition run target none now)

unfoldable pub requests : EvalRun → List (EvalRunState × DateTime) → EvalRun
requests run [] = run
requests run ((target, now) ∷ rest) = requests (request run target now) rest

-- The states that a run goes through, its first state included.
unfoldable pub history : EvalRun → List (EvalRunState × DateTime) → List EvalRunState
history run [] = run.state ∷ []
history run ((target, now) ∷ rest) = run.state ∷ history (request run target now) rest

-- What holds of a run between two requests.
pub record Inv (run : EvalRun) : Type 0 where
  pub ended : is_some run.ended_at ≡ is_terminal_run run.state
  pub running_started : run.state ≡ EvalRunState.running → is_some run.started_at ≡ true
  pub grading_started : run.state ≡ EvalRunState.grading → is_some run.started_at ≡ true
  pub review_started : run.state ≡ EvalRunState.review_required → is_some run.started_at ≡ true
  pub completed_started : run.state ≡ EvalRunState.completed → is_some run.started_at ≡ true

request-Inv :
    (run : EvalRun) (target : EvalRunState) (now : DateTime)
    → Inv run
    → Inv (request run target now)
unfolding request transition
request-Inv run target now h = ground arith

requests-Inv :
    (run : EvalRun) (rs : List (EvalRunState × DateTime)) → Inv run → Inv (requests run rs)
unfolding requests
requests-Inv run [] h = h
requests-Inv run ((target, now) ∷ rest) h =
    requests-Inv (request run target now) rest (request-Inv run target now h)

new-Inv :
    (tenant suite version fingerprint : String) (run : EvalRun)
    → new tenant suite version fingerprint ≡ ok run
    → Inv run × (run.state ≡ EvalRunState.created)
unfolding new
new-Inv tenant suite version fingerprint run h = ground arith

abbrev pub is_grading : EvalRunState → Bool
is_grading EvalRunState.grading = true
is_grading _ = false

-- The states that a run has only after it was graded.
abbrev is_graded : EvalRunState → Bool
is_graded EvalRunState.grading = true
is_graded EvalRunState.review_required = true
is_graded EvalRunState.completed = true
is_graded _ = false

request_graded :
    (run : EvalRun) (target : EvalRunState) (now : DateTime)
    → is_graded run.state ≡ false
    → (is_graded (request run target now).state ≡ false)
      ⊎ (is_grading (request run target now).state ≡ true)
unfolding request transition
request_graded run target now h = ground arith

any-history :
    (run : EvalRun) (rs : List (EvalRunState × DateTime))
    → is_grading run.state ≡ true
    → any is_grading (history run rs) ≡ true
unfolding history
any-history run [] h = ground arith
any-history run (r ∷ rs) h = ground arith

completed-any-grading :
    (run : EvalRun) (rs : List (EvalRunState × DateTime))
    → is_graded run.state ≡ false
    → (requests run rs).state ≡ EvalRunState.completed
    → any is_grading (history run rs) ≡ true
unfolding history requests
completed-any-grading run [] h c = ground arith
completed-any-grading run ((target, now) ∷ rest) h c = elim (request_graded run target now h) [
  | inl before ↦ ground (arith, completed-any-grading (request run target now) rest before c)
  | inr seen ↦ ground (arith, any-history (request run target now) rest seen)
]

request_terminal :
    (run : EvalRun) (target : EvalRunState) (now : DateTime)
    → is_terminal_run run.state ≡ true
    → (request run target now).state ≡ run.state
unfolding request transition
request_terminal run target now h = ground arith

-- A run that some sequence of requests brought from its creation to COMPLETED has a start time
-- and an end time, and was in GRADING on the way.
pub completed_run :
    (tenant suite version fingerprint : String) (run : EvalRun)
    (rs : List (EvalRunState × DateTime))
    → new tenant suite version fingerprint ≡ ok run
    → (requests run rs).state ≡ EvalRunState.completed
    → (is_some (requests run rs).started_at ≡ true)
      × (is_some (requests run rs).ended_at ≡ true)
      × (any is_grading (history run rs) ≡ true)
completed_run tenant suite version fingerprint run rs n c =
    let (inv, state) = new-Inv tenant suite version fingerprint run n in
    let final = requests-Inv run rs inv in
    (final.completed_started c, rw c at final.ended, completed-any-grading run rs (rw state) c)

-- A run in a terminal state stays in it, whatever is requested.
pub terminal_run_stays :
    (run : EvalRun) (rs : List (EvalRunState × DateTime))
    → is_terminal_run run.state ≡ true
    → (requests run rs).state ≡ run.state
unfolding requests
terminal_run_stays run [] h = refl
terminal_run_stays run ((target, now) ∷ rest) h =
    let same = request_terminal run target now h in
    terminal_run_stays (request run target now) rest (rw same h) ∙ same
