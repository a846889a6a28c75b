-- ===== src/Qualification/Waivers.antt =====
-- `apply_waivers` (qualification.py, lines 139-270). The texts of the reasons are data, with the
-- values that they print. Comparing a datetime that has a time zone with one that has none raises.
use cc_suite.Prelude.{
  ℕ, Bool, not, Option, none, some, List, [], ◌∷◌, String, str_eq, Result, ok, raise_if, ◌>>=◌,
  ◌>>◌, nonblank, sha256_match, leb, ◌==◌, if◌then◌else◌, map,
}
use cc_suite.Prelude.Floats.{Floats}
use cc_suite.Domain.{DateTime, Refusal}
use cc_suite.Domain.Waivers.{EvalWaiver}
use cc_suite.Domain.Grades.{differs}
use cc_suite.Graders.{requirement_ref}
use cc_suite.Graders.Aggregate.{BlockingFinding}

unfoldable pub waiver_requirement_ref : EvalWaiver → String
waiver_requirement_ref w = requirement_ref w.failed_suite_id w.failed_case_id w.failed_grader_id

-- Why a waiver did not apply.
pub data Rejection : Type 0 where
  expired_at : DateTime → Rejection
  names_no_release : String → Rejection
  other_release other_target : String → String → Rejection
  authority_forbids no_finding_matched : String → Rejection

-- `now >= t`
unfoldable pub is_past : DateTime → DateTime → Result Refusal Bool
is_past t now = do
  raise_if (differs t.is_aware now.is_aware) Refusal.mixed_datetimes
  ok (leb t.instant now.instant)

-- `_waiver_inactive_reason`: `none` is the empty text.
inactive_at : Option DateTime → EvalWaiver → DateTime → String → Result Refusal (Option Rejection)
unfolding is_past
inactive_at (some t) w now release_id = do
  past ← is_past t now
  ok (if past then some (expired_at t) else none)
inactive_at none w now release_id = ok (
    if not (nonblank release_id)
    then some (names_no_release w.release_bound_to)
    else if not (str_eq w.release_bound_to release_id)
    then some (other_release w.release_bound_to release_id)
    else none)

unfoldable pub waiver_inactive_reason :
    EvalWaiver → DateTime → String → Result Refusal (Option Rejection)
unfolding inactive_at
waiver_inactive_reason w now release_id = inactive_at w.expires_at w now release_id

-- `rejection_reasons.setdefault(id, reason)`
abbrev pub Reasons : Type 0
Reasons = List (ℕ × Rejection)

unfoldable pub set_default : ℕ → Rejection → Reasons → Reasons
set_default k r [] = (k, r) ∷ []
set_default k r ((j, s) ∷ rest) = if j == k then (j, s) ∷ rest else (j, s) ∷ set_default k r rest

reason_of : ℕ → Rejection → Reasons → Rejection
reason_of k default [] = default
reason_of k default ((j, s) ∷ rest) = if j == k then s else reason_of k default rest

-- `{waiver.id: waiver for waiver in waivers}`
insert_waiver : EvalWaiver → List EvalWaiver → List EvalWaiver
insert_waiver w [] = w ∷ []
insert_waiver w (v ∷ vs) = if v.id == w.id then w ∷ vs else v ∷ insert_waiver w vs

unfoldable pub by_id : List EvalWaiver → List EvalWaiver → List EvalWaiver
unfolding insert_waiver
by_id acc [] = acc
by_id acc (w ∷ ws) = by_id (insert_waiver w acc) ws

-- `unused.pop(id, None)`
pub without : ℕ → List EvalWaiver → List EvalWaiver
without k [] = []
without k (v ∷ vs) = if v.id == k then vs else v ∷ without k vs

-- What one waiver is to one finding.
pub data Trial : Type 0 where
  skips matches : Trial
  rejects : Rejection → Trial

module _ ⦃fl : Floats⦄ where
  pub record AppliedWaiver : Type 0 where
    pub waiver : EvalWaiver
    pub finding : BlockingFinding

  pub record RejectedWaiver : Type 0 where
    pub waiver : EvalWaiver
    pub reason : Rejection

  pub record WaiverApplication : Type 0 where
    pub remaining : List BlockingFinding
    pub applied : List AppliedWaiver
    pub rejected : List RejectedWaiver

  -- After the test of the waiver's force.
  concluded : BlockingFinding → Option Rejection → Trial
  concluded f (some r) = rejects r
  concluded f none =
      if f.authority_forbidden then rejects (authority_forbids f.requirement) else matches

  -- The body of the loop over the waivers.
  unfoldable pub try_waiver :
      BlockingFinding → EvalWaiver → String → DateTime → String → Result Refusal Trial
  unfolding concluded
  try_waiver f w target now release_id =
      let inactive = waiver_inactive_reason w now release_id in
      if not (str_eq (waiver_requirement_ref w) f.requirement)
      then ok skips
      else if not (str_eq w.target_fingerprint target)
      then ok (rejects (other_target w.target_fingerprint target))
      else (do r ← inactive; ok (concluded f r))

  -- The loop over the waivers stops at the first match.
  unfoldable pub find_match :
      BlockingFinding
      → List EvalWaiver
      → String
      → DateTime
      → String
      → Reasons
      → Result Refusal (Option EvalWaiver × Reasons)
  find_match f [] target now release_id reasons = ok (none, reasons)
  find_match f (w ∷ ws) target now release_id reasons = do
    t ← try_waiver f w target now release_id
    elim t [
      | skips ↦ find_match f ws target now release_id reasons
      | matches ↦ ok (some w, reasons)
      | rejects r ↦ find_match f ws target now release_id (set_default w.id r reasons)
    ]

  pub record Sorted : Type 0 where
    pub remaining : List BlockingFinding
    pub applied : List AppliedWaiver
    pub unused : List EvalWaiver
    pub reasons : Reasons

  abbrev pub add_remaining : BlockingFinding → Sorted → Sorted
  add_remaining f s = record s { remaining = f ∷ s.remaining }

  abbrev pub add_applied : EvalWaiver → BlockingFinding → Sorted → Sorted
  add_applied w f s = record s { applied = record { waiver = w; finding = f } ∷ s.applied }

  -- The loop over the findings.
  unfoldable pub sort_findings :
      List BlockingFinding
      → List EvalWaiver
      → String
      → DateTime
      → String
      → List EvalWaiver
      → Reasons
      → Result Refusal Sorted
  sort_findings [] waivers target now release_id unused reasons =
      ok (record { remaining = []; applied = []; unused = unused; reasons = reasons })
  sort_findings (f ∷ fs) waivers target now release_id unused reasons = do
    (m, reasons') ← find_match f waivers target now release_id reasons
    elim m [
      | none ↦ (do
        s ← sort_findings fs waivers target now release_id unused reasons'
        ok (add_remaining f s))
      | some w ↦ (do
        s ← sort_findings fs waivers target now release_id (without w.id unused) reasons'
        ok (add_applied w f s))
    ]

  unfoldable pub rejected_of : Reasons → EvalWaiver → RejectedWaiver
  unfolding reason_of
  rejected_of reasons w = record {
    waiver = w;
    reason = reason_of w.id (no_finding_matched (waiver_requirement_ref w)) reasons;
  }

  unfoldable pub apply_waivers :
      List BlockingFinding
      → List EvalWaiver
      → String
      → DateTime
      → String
      → Result Refusal WaiverApplication
  apply_waivers findings waivers target now release_id = do
    raise_if (not (sha256_match target)) Refusal.bad_fingerprint
    raise_if (not now.is_aware) Refusal.naive_datetime
    s ← sort_findings findings waivers target now release_id (by_id [] waivers) []
    ok (record {
      remaining = s.remaining;
      applied = s.applied;
      rejected = map (rejected_of s.reasons) s.unused;
    })
