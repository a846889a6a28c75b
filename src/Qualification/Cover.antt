-- ===== src/Qualification/Cover.antt =====
-- `apply_waivers` against its specification: which waiver covers which finding.
use cc_suite.Prelude.{
  ◌≡◌, refl, Bool, true, false, not, ◌&&◌, Option, none, some, is_some, List, [], ◌∷◌, String,
  str_eq, ok, nonblank, sha256_match, ltb, if◌then◌else◌, map, All, filter, arith, raise_if-pass,
  is_ok, is_ok-value, Option-cases, Bool-cases, inl, inr, ap, ◌∙◌,
}
use cc_suite.Prelude.Floats.{Floats}
use cc_suite.Domain.{DateTime}
use cc_suite.Domain.Waivers.{EvalWaiver}
use cc_suite.Graders.Aggregate.{BlockingFinding}
use cc_suite.Qualification.Waivers.{
  AppliedWaiver, WaiverApplication, Trial, skips, matches, rejects, Reasons, Sorted,
  waiver_requirement_ref, waiver_inactive_reason, try_waiver, find_match, sort_findings,
  apply_waivers, without, by_id, set_default, add_remaining, add_applied, rejected_of,
}

-- A waiver is in force: before its expiry, or bound to the release under qualification.
abbrev in_force_at : Option DateTime → EvalWaiver → DateTime → String → Bool
in_force_at (some t) w now release_id = ltb now.instant t.instant
in_force_at none w now release_id = nonblank release_id && str_eq w.release_bound_to release_id

abbrev pub in_force : EvalWaiver → DateTime → String → Bool
in_force w now release_id = in_force_at w.expires_at w now release_id

-- Its expiry, if it has one, carries a time zone.
abbrev aware_at : Option DateTime → Bool
aware_at none = true
aware_at (some t) = t.is_aware

abbrev pub has_aware_expiry : EvalWaiver → Bool
has_aware_expiry w = aware_at w.expires_at

module _ ⦃fl : Floats⦄ (target : String) (now : DateTime) (release_id : String) where
  -- The waiver names the finding's requirement and this target, is in force, and the finding is not
  -- forbidden by the runtime authority.
  pub covers : BlockingFinding → EvalWaiver → Bool
  covers f w =
      str_eq (waiver_requirement_ref w) f.requirement
      && str_eq w.target_fingerprint target
      && in_force w now release_id
      && not f.authority_forbidden

  pub first_cover : BlockingFinding → List EvalWaiver → Option EvalWaiver
  first_cover f [] = none
  first_cover f (w ∷ ws) = if covers f w then some w else first_cover f ws

  -- Whether a trial is a match.
  abbrev is_match : Trial → Bool
  is_match matches = true
  is_match _ = false

  try_waiver_total :
      (f : BlockingFinding) (w : EvalWaiver)
      → now.is_aware ≡ true
      → has_aware_expiry w ≡ true
      → is_ok (try_waiver f w target now release_id) ≡ true
  unfolding try_waiver waiver_inactive_reason
  try_waiver_total f w a b = ground arith

  try_waiver-covers :
      (f : BlockingFinding) (w : EvalWaiver) (t : Trial)
      → try_waiver f w target now release_id ≡ ok t
      → is_match t ≡ covers f w
  unfolding try_waiver covers waiver_inactive_reason
  try_waiver-covers f w t h = ground arith

  -- The loop over the waivers finds the first that covers the finding.
  find_match-first_cover :
      (f : BlockingFinding) (ws : List EvalWaiver) (reasons : Reasons)
      → now.is_aware ≡ true
      → All (λ w. has_aware_expiry w ≡ true) ws
      → (reasons' : Reasons) × (find_match f ws target now release_id reasons
          ≡ ok (first_cover f ws, reasons'))
  unfolding find_match first_cover
  find_match-first_cover f [] reasons a b = (reasons, refl)
  find_match-first_cover f (w ∷ ws) reasons a b =
      let (t, e) =
        is_ok-value (try_waiver f w target now release_id) (try_waiver_total f w a b.0) in
      found t e (try_waiver-covers f w t e) (λ rs. find_match-first_cover f ws rs a b.1)
    where
      found :
          (t : Trial)
          → try_waiver f w target now release_id ≡ ok t
          → is_match t ≡ covers f w
          → ((rs : Reasons)
              → (reasons' : Reasons) × (find_match f ws target now release_id rs
                  ≡ ok (first_cover f ws, reasons')))
          → (reasons' : Reasons) × (find_match f (w ∷ ws) target now release_id reasons
              ≡ ok (first_cover f (w ∷ ws), reasons'))
      found skips e c rest = let (r, p) = rest reasons in (r, rw (e, ← c) p)
      found matches e c rest = (reasons, rw (e, ← c))
      found (rejects x) e c rest =
          let (r, p) = rest (set_default w.id x reasons) in (r, rw (e, ← c) p)

  -- The specification: the findings that no waiver covers, and those that one covers with the first
  -- that does, both in the order of the findings.
  pub left_over : List BlockingFinding → List EvalWaiver → List BlockingFinding
  left_over [] ws = []
  left_over (f ∷ fs) ws =
      let rest = left_over fs ws in if is_some (first_cover f ws) then rest else f ∷ rest

  abbrev with_cover : BlockingFinding → Option EvalWaiver → List AppliedWaiver → List AppliedWaiver
  with_cover f none rest = rest
  with_cover f (some w) rest = record { waiver = w; finding = f } ∷ rest

  pub covered : List BlockingFinding → List EvalWaiver → List AppliedWaiver
  covered [] ws = []
  covered (f ∷ fs) ws = with_cover f (first_cover f ws) (covered fs ws)

  abbrev IsSortedAs :
      List BlockingFinding → List EvalWaiver → List EvalWaiver → Reasons → Sorted → Type 0
  IsSortedAs fs ws unused reasons s =
      (sort_findings fs ws target now release_id unused reasons ≡ ok s)
      × (s.remaining ≡ left_over fs ws)
      × (s.applied ≡ covered fs ws)

  sort_findings-left_over :
      (fs : List BlockingFinding) (ws : List EvalWaiver)
      → now.is_aware ≡ true
      → All (λ w. has_aware_expiry w ≡ true) ws
      → (unused : List EvalWaiver) (reasons : Reasons)
      → (s : Sorted) × IsSortedAs fs ws unused reasons s
  unfolding sort_findings left_over covered
  sort_findings-left_over [] ws a b unused reasons = (
    record { remaining = []; applied = []; unused = unused; reasons = reasons },
    (refl, refl, refl),
  )
  sort_findings-left_over (f ∷ fs) ws a b unused reasons =
      let (r, e) = find_match-first_cover f ws reasons a b in
      sorted (first_cover f ws) refl r e (λ unused'. sort_findings-left_over fs ws a b unused' r)
    where
      sorted :
          (m : Option EvalWaiver)
          → first_cover f ws ≡ m
          → (r : Reasons) → find_match f ws target now release_id reasons ≡ ok (first_cover f ws, r)
          → ((unused' : List EvalWaiver) → (s : Sorted) × IsSortedAs fs ws unused' r s)
          → (s : Sorted) × IsSortedAs (f ∷ fs) ws unused reasons s
      sorted none c r e rest =
          let (s, (p, q, t)) = rest unused in
          (add_remaining f s, (rw (e, c, p), rw (c, q), rw (c, t)))
      sorted (some w) c r e rest =
          let (s, (p, q, t)) = rest (without w.id unused) in
          (add_applied w f s, (rw (e, c, p), rw (c, q), rw (c, t)))

  -- With a digest for the target and time zones on the clock and on every expiry, `apply_waivers`
  -- returns. What remains is the findings that no waiver covers, and what is applied is the other
  -- findings, each with the first waiver that covers it, both in the order of the findings.
  pub apply_waivers-left_over :
      (fs : List BlockingFinding) (ws : List EvalWaiver)
      → sha256_match target ≡ true
      → now.is_aware ≡ true
      → All (λ w. has_aware_expiry w ≡ true) ws
      → (app : WaiverApplication) × (apply_waivers fs ws target now release_id ≡ ok app)
        × (app.remaining ≡ left_over fs ws)
        × (app.applied ≡ covered fs ws)
  unfolding apply_waivers
  apply_waivers-left_over fs ws d a b =
      let (s, (p, q, t)) = sort_findings-left_over fs ws a b (by_id [] ws) [] in
      (
        record {
          remaining = s.remaining;
          applied = s.applied;
          rejected = map (rejected_of s.reasons) s.unused;
        },
        raise_if-pass (not (sha256_match target)) _ _ (ap not d)
            ∙ (raise_if-pass (not now.is_aware) _ _ (ap not a) ∙ rw p refl),
        q,
        t,
      )

  first_cover-covers :
      (f : BlockingFinding) (ws : List EvalWaiver) {w : EvalWaiver}
      → first_cover f ws ≡ some w
      → covers f w ≡ true
  unfolding first_cover
  first_cover-covers f [] h = cc
  first_cover-covers f (v ∷ vs) {w} h = elim (Bool-cases (covers f v)) [
    | inl c ↦ ground (arith, c)
    | inr c ↦ first_cover-covers f vs (rw c at h)
  ]

  -- Every waiver that the specification applies covers its finding.
  covered-covers :
      (fs : List BlockingFinding) (ws : List EvalWaiver)
      → All (λ a. covers a.finding a.waiver ≡ true) (covered fs ws)
  unfolding covered
  covered-covers [] ws = tt
  covered-covers (f ∷ fs) ws = elim (Option-cases (first_cover f ws)) [
    | inl e ↦ rw e (covered-covers fs ws)
    | inr (w, e) ↦ rw e (first_cover-covers f ws e, covered-covers fs ws)
  ]

  forbidden-first_cover :
      (f : BlockingFinding) (ws : List EvalWaiver)
      → f.authority_forbidden ≡ true
      → first_cover f ws ≡ none
  unfolding first_cover covers
  forbidden-first_cover f [] h = refl
  forbidden-first_cover f (w ∷ ws) h = ground (arith, forbidden-first_cover f ws h)

  forbidden_left_over :
      (fs : List BlockingFinding) (ws : List EvalWaiver)
      → filter (λ f. f.authority_forbidden) (left_over fs ws)
        ≡ filter (λ f. f.authority_forbidden) fs
  unfolding left_over
  forbidden_left_over [] ws = refl
  forbidden_left_over (f ∷ fs) ws = elim (Bool-cases f.authority_forbidden) [
    | inl h ↦ rw (forbidden-first_cover f ws h) (ground (arith, forbidden_left_over fs ws))
    | inr h ↦ ground (arith, forbidden_left_over fs ws)
  ]

  -- With a digest for the target and time zones on the clock and on every expiry: `apply_waivers`
  -- returns, every finding that the runtime authority forbids remains, in its place, and every waiver
  -- that is applied names its finding's requirement and this target, is in force, and stands by a
  -- finding that is not forbidden.
  pub waivers_authorize_nothing :
      (fs : List BlockingFinding) (ws : List EvalWaiver)
      → sha256_match target ≡ true
      → now.is_aware ≡ true
      → All (λ w. has_aware_expiry w ≡ true) ws
      → (app : WaiverApplication) × (apply_waivers fs ws target now release_id ≡ ok app)
        × (filter (λ f. f.authority_forbidden) app.remaining
            ≡ filter (λ f. f.authority_forbidden) fs)
        × All (λ a. covers a.finding a.waiver ≡ true) app.applied
  waivers_authorize_nothing fs ws d a b =
      let (app, e, remaining, applied) = apply_waivers-left_over fs ws d a b in
      (app, e, rw remaining (forbidden_left_over fs ws), rw applied (covered-covers fs ws))
