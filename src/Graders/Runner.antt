-- ===== src/Graders/Runner.antt =====
-- `run_grader`: a grader's verdict, or an ERROR in its place (graders.py, lines 532-660). A grader
-- is seen through what reading each of its attributes does, and through what its `grade` does. Only
-- exceptions of class Exception are modelled: a SystemExit or KeyboardInterrupt leaves `run_grader`.
use cc_suite.Prelude.{
  Bool, true, false, none, List, [], ◌∷◌, ◌++◌, String, str_append, Result, ok, err, ◌>>=◌,
  if◌then◌else◌,
}
use cc_suite.Domain.{ResultState, GraderKind, Criticality, Refusal, is_semantic}
use cc_suite.Graders.{deterministic_family}
use cc_suite.Graders.Verdict.{GraderResult, post_init}

-- An exception, by what `f"{type(exc).__name__}: {exc}"` does: it gives a text, or raises another.
pub data Exc : Type 0 where
  shows : String → Exc
  raises : Exc → Exc

abbrev pub render : Exc → Result Exc String
render (shows t) = ok t
render (raises e) = err e

-- An attribute that should be of an enum: typed, of another type (with what its `repr` does), or
-- one whose reading raises.
pub data Attr (A : Type 0) : Type 0 where
  typed : A → Attr A
  foreign : Result Exc String → Attr A
  unreadable : Exc → Attr A

-- An attribute that is read as a text: its truth value and what its `str` does.
pub data TextAttr : Type 0 where
  printable : Bool → Result Exc String → TextAttr
  unreadable : Exc → TextAttr

-- What the call of `grade` does: it raises an exception of class Exception, gives a verdict, gives a value whose class cannot be
-- inspected, or gives another value (with what naming its type does).
pub data Graded : Type 0 where
  raised : Exc → Graded
  verdict : GraderResult → Graded
  uninspectable : Exc → Graded
  other : Result Exc String → Graded

pub record Grader : Type 0 where
  pub grader_id : TextAttr
  pub grader_version : TextAttr
  pub grader_family : TextAttr
  pub kind : Attr GraderKind
  pub criticality : Attr Criticality
  pub judge_model_id : TextAttr
  pub rubric_id : TextAttr
  pub rubric_version : TextAttr
  pub rubric_sha256 : TextAttr
  pub graded : Graded

-- `f"grader.{name} is {how}: {exc}"`: the text of the exception is rendered on the way.
abbrev pub note : List String → String → String → Exc → Result Exc (List String)
note faults name how e = do
  t ← render e
  ok (faults ++ str_append "grader." (str_append name (str_append how t)) ∷ [])

-- `_text`. A rendering that raises inside its `try` is noted as a fault of its own.
unfoldable pub read_text :
    List String → String → TextAttr → String → Result Exc (List String × String)
read_text faults name (printable false _) default = ok (faults, default)
read_text faults name (printable true (ok t)) default = ok (faults, t)
read_text faults name (printable true (err e)) default = do
  faults' ← note faults name " is unprintable: " e
  ok (faults', default)
read_text faults name (unreadable (shows t)) default = do
  faults' ← note faults name " is unreadable: " (shows t)
  ok (faults', default)
read_text faults name (unreadable (raises e)) default = do
  faults' ← note faults name " is unprintable: " e
  ok (faults', default)

-- `f"grader.{name} is not a {type} ({value!r}); graded as {default}"`
abbrev pub untyped : List String → String → String → List String
untyped faults name shown =
    faults
    ++ str_append "grader." (str_append name (str_append " is not typed (" (str_append shown ")")))
      ∷ []

-- `_attr` and the test of the type, which stand in no `try`.
unfoldable pub read_attr :
    {A : Type 0} → List String → String → Attr A → A → Result Exc (List String × A)
read_attr faults name (typed a) default = ok (faults, a)
read_attr faults name (foreign shown) default = do t ← shown; ok (untyped faults name t, default)
read_attr faults name (unreadable e) default = do
  faults' ← note faults name " is unreadable: " e
  ok (untyped faults' name "None", default)

-- The identity that is harvested from a grader before it runs.
pub record Identity : Type 0 where
  pub faults : List String
  pub grader_id : String
  pub grader_version : String
  pub grader_family : String
  pub kind : GraderKind
  pub criticality : Criticality

unfoldable pub harvest : Grader → Result Exc Identity
unfolding read_text read_attr
harvest g = do
  (f1, grader_id) ← read_text [] "grader_id" g.grader_id "unknown-grader"
  (f2, version) ← read_text f1 "grader_version" g.grader_version "unknown"
  (f3, family) ← read_text f2 "grader_family" g.grader_family deterministic_family
  (f4, kind) ← read_attr f3 "kind" g.kind GraderKind.structural
  (f5, criticality) ← read_attr f4 "criticality" g.criticality Criticality.critical
  ok (record {
    faults = f5;
    grader_id = grader_id;
    grader_version = version;
    grader_family = family;
    kind = kind;
    criticality = if is_semantic kind then Criticality.advisory else criticality;
  })

-- The judge and the rubric, read for a semantic grader only.
unfoldable pub read_judge :
    Bool → List String → Grader → Result Exc (List String × (String × String × String × String))
unfolding read_text
read_judge false faults g = ok (faults, ("", "", "", ""))
read_judge true faults g = do
  (f1, judge) ← read_text faults "judge_model_id" g.judge_model_id "unknown-judge"
  (f2, rubric) ← read_text f1 "rubric_id" g.rubric_id "unknown-rubric"
  (f3, version) ← read_text f2 "rubric_version" g.rubric_version "unknown"
  (f4, sha) ← read_text f3 "rubric_sha256" g.rubric_sha256 "unknown-rubric-sha"
  ok (f4, (judge, rubric, version, sha))

-- `"; ".join(faults)`
unfoldable pub joined : List String → String
joined [] = ""
joined (f ∷ []) = f
joined (f ∷ rest) = str_append f (str_append "; " (joined rest))

unfoldable pub with_faults : String → List String → String
unfolding joined
with_faults detail [] = detail
with_faults detail (f ∷ rest) =
    str_append detail
      (str_append " [grader metadata invalid: " (str_append (joined (f ∷ rest)) "]"))

-- The ERROR verdict under the grader's own identity.
abbrev pub error_verdict : Identity → String → (String × String × String × String) → GraderResult
error_verdict i detail (judge, rubric, version, sha) = record {
  grader_id = i.grader_id;
  grader_version = i.grader_version;
  kind = i.kind;
  state = ResultState.error;
  reason = str_append "grader " (str_append i.grader_id " did not produce a verdict");
  criticality = i.criticality;
  evidence_ref = "";
  evidence_sha256 = "";
  error_detail = detail;
  grader_family = i.grader_family;
  judge_model_id = judge;
  rubric_id = rubric;
  rubric_version = version;
  rubric_sha256 = sha;
  adjudicator_identity = "";
  adjudicator_family = "";
  adjudicated_at = none;
}

-- The last resort: every field but the detail is a literal.
abbrev pub fallback_verdict : String → GraderResult
fallback_verdict detail = record {
  grader_id = "unknown-grader";
  grader_version = "unknown";
  kind = GraderKind.structural;
  state = ResultState.error;
  reason = "grader did not produce a verdict";
  criticality = Criticality.critical;
  evidence_ref = "";
  evidence_sha256 = "";
  error_detail = str_append detail " [fallback verdict rebuilt]";
  grader_family = deterministic_family;
  judge_model_id = "";
  rubric_id = "";
  rubric_version = "";
  rubric_sha256 = "";
  adjudicator_identity = "";
  adjudicator_family = "";
  adjudicated_at = none;
}

unfoldable pub or_fallback : String → Result Refusal GraderResult → GraderResult
or_fallback detail (ok r) = r
or_fallback detail (err e) = fallback_verdict detail

-- `_error`
unfoldable pub error_result : Grader → Identity → String → Result Exc GraderResult
unfolding read_judge with_faults or_fallback
error_result g i detail = do
  (faults, judge) ← read_judge (is_semantic i.kind) i.faults g
  let full = with_faults detail faults
  ok (or_fallback full (post_init (error_verdict i full judge)))

-- `_describe`: the text of the fault, or a fallback where it cannot be rendered.
unfoldable pub describe : Result Exc String → String → String
describe (ok t) fallback = t
describe (err e) fallback = str_append fallback " (fault detail unrenderable)"

-- `f"{before}{e}{after}"`
abbrev pub built : String → Result Exc String → String → Result Exc String
built before shown after = do t ← shown; ok (str_append before (str_append t after))

-- The detail of the ERROR, where `grade` gave no verdict.
unfoldable pub detail_of : Graded → String
unfolding describe
detail_of (verdict r) = ""
detail_of (raised e) =
    describe (built "grader raised an exception: " (render e) "") "grader raised an exception"
detail_of (uninspectable e) =
    describe (built "grader returned an uninspectable result (" (render e) ")")
      "grader returned an uninspectable result"
detail_of (other shown) =
    describe (built "grader returned " shown ", not a GraderResult")
      "grader returned something that is not a GraderResult"

unfoldable pub conclude : Grader → Identity → Graded → Result Exc GraderResult
unfolding detail_of
conclude g i (verdict r) = ok r
conclude g i graded = error_result g i (detail_of graded)

-- `err e` is an exception that escapes from the function.
unfoldable pub run_grader : Grader → Result Exc GraderResult
unfolding harvest conclude
run_grader g = do i ← harvest g; conclude g i g.graded
