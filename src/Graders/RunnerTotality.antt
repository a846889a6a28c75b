-- ===== src/Graders/RunnerTotality.antt =====
-- `run_grader` gives a verdict whenever the faults of the grader's attributes can be put into
-- words, and an ERROR unless `grade` gave one; a fault that cannot be put into words escapes.
use cc_suite.Prelude.{
  ◌≡◌, refl, Bool, true, false, List, [], ◌∷◌, String, Result, ok, err, ◌>>=◌, nonblank, arith, inl,
  inr, Result-cases, is_ok, is_ok-bind, is_ok-value, nonblank-append_left, is_space,
}
use cc_suite.Domain.{ResultState, GraderKind, Criticality, is_semantic}
use cc_suite.Graders.{deterministic_family}
use cc_suite.Graders.Verdict.{GraderResult, post_init, post_init-same}
use cc_suite.Graders.Runner.{
  Exc, shows, raises, Attr, typed, foreign, TextAttr, printable, Graded, Grader, Identity,
  read_text, read_attr, harvest, read_judge, with_faults, or_fallback, error_result, detail_of,
  describe, built, conclude, run_grader, error_verdict, fallback_verdict, raised, verdict,
  uninspectable, other, unreadable, render,
}

-- Every fault that reading the grader's attributes meets can be put into words.
abbrev is_shown : Exc → Bool
is_shown (shows t) = true
is_shown (raises e) = false

abbrev text_is_safe : TextAttr → Bool
text_is_safe (printable true (err e)) = is_shown e
text_is_safe (printable _ _) = true
text_is_safe (unreadable (shows t)) = true
text_is_safe (unreadable (raises e)) = is_shown e

abbrev attr_is_safe : {A : Type 0} → Attr A → Bool
attr_is_safe (typed a) = true
attr_is_safe (foreign (ok t)) = true
attr_is_safe (foreign (err e)) = false
attr_is_safe (unreadable e) = is_shown e

pub record IsSafe (g : Grader) : Type 0 where
  pub grader_id : text_is_safe g.grader_id ≡ true
  pub grader_version : text_is_safe g.grader_version ≡ true
  pub grader_family : text_is_safe g.grader_family ≡ true
  pub kind : attr_is_safe g.kind ≡ true
  pub criticality : attr_is_safe g.criticality ≡ true
  pub judge_model_id : text_is_safe g.judge_model_id ≡ true
  pub rubric_id : text_is_safe g.rubric_id ≡ true
  pub rubric_version : text_is_safe g.rubric_version ≡ true
  pub rubric_sha256 : text_is_safe g.rubric_sha256 ≡ true

read_text_total :
    (faults : List String) (name : String) (a : TextAttr) (default : String)
    → text_is_safe a ≡ true
    → is_ok (read_text faults name a default) ≡ true
unfolding read_text
read_text_total faults name a default h = ground arith

read_attr_total :
    {A : Type 0} (faults : List String) (name : String) (a : Attr A) (default : A)
    → attr_is_safe a ≡ true
    → is_ok (read_attr faults name a default) ≡ true
unfolding read_attr
read_attr_total faults name a default h = ground arith

read_text_safe :
    (a : TextAttr) (safe : text_is_safe a ≡ true) (faults : List String) (name default : String)
    {B : Type 0} (f : List String × String → Result Exc B)
    → ((x : List String × String) → is_ok (f x) ≡ true)
    → is_ok (read_text faults name a default >>= f) ≡ true
read_text_safe a safe faults name default f =
    is_ok-bind (read_text faults name a default) f (read_text_total faults name a default safe)

harvest_total : (g : Grader) → IsSafe g → is_ok (harvest g) ≡ true
unfolding harvest
harvest_total g s = read_text_safe g.grader_id s.grader_id [] _ _ _ λ x1.
    read_text_safe g.grader_version s.grader_version x1.0 _ _ _ λ x2.
      read_text_safe g.grader_family s.grader_family x2.0 _ _ _ λ x3.
        is_ok-bind (read_attr x3.0 "kind" g.kind GraderKind.structural) _
          (read_attr_total x3.0 _ g.kind _ s.kind)
          λ x4.
            is_ok-bind (read_attr x4.0 "criticality" g.criticality Criticality.critical) _
              (read_attr_total x4.0 _ g.criticality _ s.criticality) λ x5. refl

read_judge_total :
    (b : Bool) (faults : List String) (g : Grader) → IsSafe g → is_ok (read_judge b faults g) ≡ true
unfolding read_judge
read_judge_total false faults g s = refl
read_judge_total true faults g s =
    read_text_safe g.judge_model_id s.judge_model_id faults _ _ _ λ x1.
      read_text_safe g.rubric_id s.rubric_id x1.0 _ _ _ λ x2.
        read_text_safe g.rubric_version s.rubric_version x2.0 _ _ _
          λ x3. read_text_safe g.rubric_sha256 s.rubric_sha256 x3.0 _ _ _ λ x4. refl

-- An ERROR that its constructor accepts.
abbrev IsValidError : GraderResult → Type 0
IsValidError r = (r.state ≡ ResultState.error) × (post_init r ≡ ok r)

fallback-IsValidError :
    (detail : String) → nonblank detail ≡ true → IsValidError (fallback_verdict detail)
unfolding post_init nonblank is_space
fallback-IsValidError detail h =
    (refl, rw (nonblank-append_left detail " [fallback verdict rebuilt]" h) refl)

or_fallback-IsValidError :
    (detail : String) (r : GraderResult)
    → r.state ≡ ResultState.error
    → nonblank detail ≡ true
    → IsValidError (or_fallback detail (post_init r))
unfolding or_fallback
or_fallback-IsValidError detail r e h = elim (Result-cases (post_init r)) [
  | inl (r', p) ↦ let same = post_init-same r p in rw (p, or_fallback) (rw same at e, rw same at p)
  | inr (f, p) ↦ rw (p, or_fallback) (fallback-IsValidError detail h)
]

describe-nonblank :
    (shown : Result Exc String) (before after fallback : String)
    → nonblank before ≡ true
    → nonblank fallback ≡ true
    → nonblank (describe (built before shown after) fallback) ≡ true
unfolding describe
describe-nonblank (ok t) before after fallback b f = nonblank-append_left before _ b
describe-nonblank (err e) before after fallback b f = nonblank-append_left fallback _ f

with_faults-nonblank :
    (detail : String) (faults : List String)
    → nonblank detail ≡ true
    → nonblank (with_faults detail faults) ≡ true
unfolding with_faults
with_faults-nonblank detail [] h = h
with_faults-nonblank detail (f ∷ rest) h = nonblank-append_left detail _ h

error_result_total :
    (g : Grader) (i : Identity) (detail : String)
    → IsSafe g
    → nonblank detail ≡ true
    → (r : GraderResult) × (error_result g i detail ≡ ok r) × IsValidError r
unfolding error_result
error_result_total g i detail s h =
    let ((faults, judge), e) =
      is_ok-value (read_judge (is_semantic i.kind) i.faults g)
        (read_judge_total (is_semantic i.kind) i.faults g s) in
    let full = with_faults detail faults in
    (
      or_fallback full (post_init (error_verdict i full judge)),
      rw e refl,
      or_fallback-IsValidError full (error_verdict i full judge) refl
          (with_faults-nonblank detail faults h),
    )

-- What the caller gets: the verdict that `grade` gave, or else an ERROR.
abbrev pub Answers : Graded → GraderResult → Type 0
Answers (verdict r') r = r' ≡ r
Answers _ r = IsValidError r

conclude_total :
    (g : Grader) (i : Identity) (x : Graded)
    → IsSafe g
    → (r : GraderResult) × (conclude g i x ≡ ok r) × Answers x r
unfolding conclude detail_of nonblank is_space
conclude_total g i (verdict r) s = (r, refl, refl)
conclude_total g i (raised e) s =
    error_result_total g i _ s (describe-nonblank (render e) _ _ _ refl refl)
conclude_total g i (uninspectable e) s =
    error_result_total g i _ s (describe-nonblank (render e) _ _ _ refl refl)
conclude_total g i (other shown) s =
    error_result_total g i _ s (describe-nonblank shown _ _ _ refl refl)

-- If every fault that reading the grader's attributes meets can be put into words, `run_grader`
-- returns: with the verdict that `grade` gave, and otherwise, whatever `grade` did, with an ERROR
-- verdict that the verdicts' constructor accepts.
pub run_grader_total :
    (g : Grader) → IsSafe g → (r : GraderResult) × (run_grader g ≡ ok r) × Answers g.graded r
unfolding run_grader
run_grader_total g s =
    let (i, e) = is_ok-value (harvest g) (harvest_total g s) in
    let (r, p, q) = conclude_total g i g.graded s in (r, rw e p, q)

-- The docstring promises totality over the metadata. A grader whose texts can be read and whose
-- `kind` raises an exception that cannot be put into words makes the rendering's own exception
-- escape, whatever `grade` would have done.
pub run_grader_escapes :
    (g : Grader) (e : Exc)
    → text_is_safe g.grader_id ≡ true
    → text_is_safe g.grader_version ≡ true
    → text_is_safe g.grader_family ≡ true
    → g.kind ≡ unreadable (raises e)
    → run_grader g ≡ err e
unfolding run_grader harvest read_attr
run_grader_escapes g e a b c k =
    let (x1, p1) = is_ok-value _ (read_text_total [] "grader_id" g.grader_id "unknown-grader" a) in
    let (x2, p2) =
      is_ok-value _ (read_text_total x1.0 "grader_version" g.grader_version "unknown" b) in
    let (x3, p3) =
      is_ok-value _ (read_text_total x2.0 "grader_family" g.grader_family deterministic_family c) in
    rw (p1, p2, p3, k)
