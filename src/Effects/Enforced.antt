-- ===== src/Effects/Enforced.antt =====
-- Which chokepoints are wrapped once `install` returned (effect_control.py, lines 751-787).
use mathlib.Core.Option.{some-injective}
use cc_suite.Prelude.{
  ℕ, ◌≡◌, refl, sym, ap, subst, Bool, true, false, not, ◌&&◌, Option, none, some, List, [], ◌∷◌,
  String, str_eq, if◌then◌else◌, Bool-cases, ◌⊎◌, inl, inr, arith, Result, ok, err, is_some, eq_iff,
  any, All,
}
use cc_suite.Effects.Calls.{ChokepointSpec}
use cc_suite.Effects.Install.{
  Object, plain, wrapper, Bindings, Process, Installing, wrapped, wrap_at, wrap_resolved, wrap_all,
  resolve, continue, InstallReport, InstallFault, already_installed, Why, unresolved,
  already_wrapped, Installation, conclude, install, hard_failures, is_empty_failures,
  optional_by_name,
}
use cc_suite.Effects.Evolution.{
  Evolves, is_missing, Evolves-keeps, Evolves-plain, Evolves-trans, Later, Later-refl, Later-trans,
  wrapped-Later, missing-Later, resolve-back,
}

module _ (process : Process) where
  -- `spec` is bound to the wrapper of the object that was bound at its place.
  unfoldable pub IsWrapped : Bindings → Bindings → ChokepointSpec → Type 0
  IsWrapped b0 b s =
      (owner : ℕ) × (name : String) × (id : ℕ) × (resolve process b0 s ≡ some (owner, name))
      × (b0 owner name ≡ some (plain id))
      × (b owner name ≡ some (wrapper s id))

  IsSettled : Bindings → Installing → ChokepointSpec → Type 0
  unfolding IsWrapped
  IsSettled b0 st s = IsWrapped b0 st.bound s ⊎ (is_missing st s.name ≡ true)

  IsSettled-Later :
      (b0 : Bindings) (s : ChokepointSpec) (st next : Installing)
      → Later st next
      → IsSettled b0 st s
      → IsSettled b0 next s
  unfolding IsSettled IsWrapped
  IsSettled-Later b0 s st next h (inl (owner, name, id, r, e, w)) =
      inl (owner, name, id, r, e, Evolves-keeps st.bound next.bound owner name h.evolves w)
  IsSettled-Later b0 s st next h (inr m) = inr (h.grows s.name m)

  wrap_at-IsSettled :
      (b0 : Bindings) (s : ChokepointSpec) (owner : ℕ) (name : String) (o : Option Object)
      (st : Installing) {next : Installing}
      → Evolves b0 st.bound
      → resolve process b0 s ≡ some (owner, name)
      → st.bound owner name ≡ o
      → wrap_at process s owner name o st ≡ some next
      → Later st next × IsSettled b0 next s
  unfolding wrap_at IsSettled
  wrap_at-IsSettled b0 s owner name none st h r k e =
      let (later, m) = missing-Later process s unresolved st in
      subst (λ x. Later st x × IsSettled b0 x s) (some-injective _ _ e) (later, inr m)
  wrap_at-IsSettled b0 s owner name (some (wrapper w id)) st h r k e =
      let (later, m) = missing-Later process s already_wrapped st in
      subst (λ x. Later st x × IsSettled b0 x s) (some-injective _ _ e) (later, inr m)
  wrap_at-IsSettled b0 s owner name (some (plain id)) st {next} h r k e =
      choose (process.is_settable owner name) e
    where
      choose :
          (b : Bool)
          → (if not b then none else some (wrapped process s owner name id st)) ≡ some next
          → Later st next × IsSettled b0 next s
      choose true e =
          let (later, here) = wrapped-Later process s owner name id st k in
          subst (λ x. Later st x × IsSettled b0 x s) (some-injective _ _ e)
            (later, inl (owner, name, id, r, Evolves-plain b0 st.bound owner name h k, here))
      choose false e = cc

  wrap_resolved-IsSettled :
      (b0 : Bindings) (s : ChokepointSpec) (place : Option (ℕ × String)) (st : Installing)
      {next : Installing}
      → Evolves b0 st.bound
      → resolve process st.bound s ≡ place
      → wrap_resolved process s place st ≡ some next
      → Later st next × IsSettled b0 next s
  unfolding IsSettled
  wrap_resolved-IsSettled b0 s none st h k e =
      let (later, m) = missing-Later process s unresolved st in
      subst (λ x. Later st x × IsSettled b0 x s) (some-injective _ _ e) (later, inr m)
  wrap_resolved-IsSettled b0 s (some (owner, name)) st h k e =
      wrap_at-IsSettled b0 s owner name (st.bound owner name) st h
        (resolve-back process b0 st.bound s h k) refl e

  wrap_all-IsSettled :
      (b0 : Bindings) (ss : List ChokepointSpec) (st : Installing)
      → Evolves b0 st.bound
      → (wrap_all process ss st).0 ≡ true
      → Later st (wrap_all process ss st).1 × All (IsSettled b0 (wrap_all process ss st).1) ss
  unfolding wrap_all
  wrap_all-IsSettled b0 [] st h e = (Later-refl st, tt)
  wrap_all-IsSettled b0 (s ∷ ss) st h e =
      go (wrap_resolved process s (resolve process st.bound s) st) refl (wrap_all-IsSettled b0 ss) e
    where
      go :
          (o : Option Installing)
          → wrap_resolved process s (resolve process st.bound s) st ≡ o
          → ((next : Installing)
              → Evolves b0 next.bound
              → (wrap_all process ss next).0 ≡ true
              → Later next (wrap_all process ss next).1
                × All (IsSettled b0 (wrap_all process ss next).1) ss)
          → (continue process o st (λ next. wrap_all process ss next)).0 ≡ true
          → Later st (continue process o st (λ next. wrap_all process ss next)).1
            × All
                (IsSettled b0 (continue process o st (λ next. wrap_all process ss next)).1)
                (s ∷ ss)
      go none k ih e = cc
      go (some next) k ih e =
          let (later, settled) = wrap_resolved-IsSettled b0 s _ st h refl k in
          let (rest, all_settled) =
            ih next (Evolves-trans b0 st.bound next.bound h later.evolves) e in
          (Later-trans later rest, (IsSettled-Later b0 s next _ rest settled, all_settled))

  drop_optional :
      (b : Bool) (u : String × Why) (rest : List (String × Why))
      → is_empty_failures (if not b then u ∷ rest else rest) ≡ true
      → (b ≡ true) × (is_empty_failures rest ≡ true)
  drop_optional true u rest h = (refl, h)
  drop_optional false u rest h = cc

  missing-optional :
      (specs : List ChokepointSpec) (us : List (String × Why)) (name : String)
      → is_empty_failures (hard_failures specs us) ≡ true
      → any (λ u. str_eq u.0 name) us ≡ true
      → optional_by_name specs name ≡ true
  unfolding hard_failures
  missing-optional specs [] name h m = cc
  missing-optional specs ((n, why) ∷ us) name h m =
      let (e, h1) = drop_optional (optional_by_name specs n) (n, why) (hard_failures specs us) h in
      elim (Bool-cases (str_eq n name)) [
        | inl k ↦ subst (λ x. optional_by_name specs x ≡ true) ((eq_iff n name).0 k) e
        | inr k ↦ missing-optional specs us name h1 (ground arith)
      ]

  enforced :
      (me : ℕ) (specs ss : List ChokepointSpec) (st : Installation) (made : Installing)
      → is_empty_failures (hard_failures specs made.report.unavailable) ≡ true
      → All (IsSettled st.bound made) ss
      → All (λ s. IsWrapped st.bound made.bound s ⊎ (optional_by_name specs s.name ≡ true)) ss
  unfolding IsSettled
  enforced me specs [] st made h all_settled = tt
  enforced me specs (s ∷ ss) st made h (inl w, rest) = (inl w, enforced me specs ss st made h rest)
  enforced me specs (s ∷ ss) st made h (inr m, rest) = (
    inr (missing-optional specs made.report.unavailable s.name h m),
    enforced me specs ss st made h rest,
  )

  abbrev pick :
      Bool
      → Result InstallFault InstallReport × Installation
      → Result InstallFault InstallReport × Installation
      → Result InstallFault InstallReport × Installation
  pick b x y = if b then x else y

  returned :
      (b : Bool) (fault : InstallFault) (found report : InstallReport)
      (restored finished : Installation) {after : Installation}
      → pick (true && not b) (err fault, restored) (ok found, finished) ≡ (ok report, after)
      → (b ≡ true) × (finished ≡ after)
  returned true fault found report restored finished e = (refl, ap (λ r. r.1) e)
  returned false fault found report restored finished e = let failed = ap (λ r. r.0) e in cc

  not_active :
      (b : Bool) (st : Installation) (r : Result InstallFault InstallReport × Installation)
      {report : InstallReport} {after : Installation}
      → pick b (err already_installed, st) r ≡ (ok report, after)
      → r ≡ (ok report, after)
  not_active true st r e = let failed = ap (λ r. r.0) e in cc
  not_active false st r e = e

  conclude-enforces :
      (me : ℕ) (specs : List ChokepointSpec) (st : Installation) (r : Bool × Installing)
      {report : InstallReport} {after : Installation}
      → (r.0 ≡ true → All (IsSettled st.bound r.1) specs)
      → conclude process me specs true st r ≡ (ok report, after)
      → All (λ s. IsWrapped st.bound after.bound s ⊎ (optional_by_name specs s.name ≡ true)) specs
  unfolding conclude
  conclude-enforces me specs st (false, made) settled e = let failed = ap (λ r. r.0) e in cc
  conclude-enforces me specs st (true, made) {report} {after} settled e =
      let (empty, made_after) = returned _ _ _ _ _ _ e in
      let enforced_all = enforced me specs specs st made empty (settled refl) in
      rw (sym made_after) enforced_all

  -- When a strict `install` returns: every chokepoint of the interceptor, at the place where it
  -- resolved before the call, held an object that is now behind the wrapper of that chokepoint, or its
  -- name is optional by the last chokepoint of that name.
  pub strict_install_enforces :
      (me : ℕ) (specs : List ChokepointSpec) (st : Installation) {report : InstallReport}
      {after : Installation}
      → install process me specs true st ≡ (ok report, after)
      → All (λ s. IsWrapped st.bound after.bound s ⊎ (optional_by_name specs s.name ≡ true)) specs
  unfolding install
  strict_install_enforces me specs st h =
      conclude-enforces me specs st _
        (λ e. (wrap_all-IsSettled st.bound specs _ (λ o n. inl refl) e).1)
        (not_active (is_some st.active) _ _ h)
