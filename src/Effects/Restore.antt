-- ===== src/Effects/Restore.antt =====
-- `uninstall` after `install` (effect_control.py, lines 751-836).
use mathlib.Core.Option.{some-injective}
use cc_suite.Prelude.{
  ℕ, ◌≡◌, refl, sym, ap, ◌∙◌, Bool, true, false, not, ◌&&◌, Option, none, some, List, [], ◌∷◌,
  String, str_eq, ◌==◌, if◌then◌else◌, Bool-cases, inl, inr, arith, Result, ok, err, is_some,
  eq_iff,
}
use cc_suite.Effects.Calls.{ChokepointSpec}
use cc_suite.Effects.Install.{
  Object, plain, wrapper, Bindings, is_place, set_binding, Process, Installing, bind, wrapped,
  rebind_names, rebind_aliases, wrap_at, wrap_resolved, wrap_all, restore, resolve, continue,
  InstallReport, InstallFault, unenforced, Why, Installation, conclude, install, uninstall,
  hard_failures, is_original, is_empty_failures,
}

pub place-eq :
    (owner : ℕ) (name : String) (o : ℕ) (n : String)
    → is_place owner name o n ≡ true
    → (o ≡ owner) × (n ≡ name)
place-eq owner name o n h =
    let e : (o == owner) ≡ true = ground arith in
    let f : str_eq n name ≡ true = ground arith in (ground arith, (eq_iff n name).0 f)

-- Setting a binding back to what it held.
set_binding-back :
    (owner : ℕ) (name : String) (w original : Object) (b : Bindings)
    → b owner name ≡ some original
    → set_binding owner name original (set_binding owner name w b) ≡ b
unfolding set_binding
set_binding-back owner name w original b h = λ i o n. at o n i
  where
    at :
        (o : ℕ) (n : String)
        → (if is_place owner name o n
            then some original
            else if is_place owner name o n
            then some w
            else b o n)
          ≡ b o n
    at o n = elim (Bool-cases (is_place owner name o n)) [
      | inl e ↦ (let (x, y) = place-eq owner name o n e in rw (e, x, y, h) refl)
      | inr e ↦ rw e refl
    ]

module _ (process : Process) where
  -- The bindings that the undo list gives back.
  abbrev given_back : Installing → Bindings
  given_back st = restore process st.undo st.bound

  bind-given_back :
      (owner : ℕ) (name : String) (w original : Object) (st : Installing)
      → process.is_settable owner name ≡ true
      → st.bound owner name ≡ some original
      → given_back (bind process owner name w original st) ≡ given_back st
  unfolding restore bind
  bind-given_back owner name w original st h e = ap (restore process st.undo) undone
    where
      undone :
          (if process.is_settable owner name
            then set_binding owner name original (set_binding owner name w st.bound)
            else set_binding owner name w st.bound)
          ≡ st.bound
      undone = rw h (set_binding-back owner name w original st.bound e)

  pub original-eq :
      (o : Option Object) (original : ℕ)
      → is_original process o original ≡ true
      → o ≡ some (plain original)
  original-eq none original h = cc
  original-eq (some (plain id)) original h = let e : id ≡ original = ground arith in rw e refl
  original-eq (some (wrapper s id)) original h = cc

  name-given_back :
      (original : ℕ) (s : ChokepointSpec) (m : ℕ) (name : String) (st : Installing) (b : Bool)
      → (is_original process (st.bound m name) original && process.is_settable m name) ≡ b
      → given_back (if b then bind process m name (wrapper s original) (plain original) st else st)
        ≡ given_back st
  name-given_back original s m name st true h =
      let e : is_original process (st.bound m name) original ≡ true = ground arith in
      let k : process.is_settable m name ≡ true = ground arith in
      bind-given_back m name (wrapper s original) (plain original) st k (original-eq _ original e)
  name-given_back original s m name st false h = refl

  names-given_back :
      (original : ℕ) (s : ChokepointSpec) (m : ℕ) (names : List String) (st : Installing)
      → given_back (rebind_names process original s m names st) ≡ given_back st
  unfolding rebind_names
  names-given_back original s m [] st = refl
  names-given_back original s m (name ∷ names) st =
      names-given_back original s m names _ ∙ name-given_back original s m name st _ refl

  aliases-given_back :
      (original : ℕ) (s : ChokepointSpec) (skip : ℕ) (ms : List ℕ) (st : Installing)
      → given_back (rebind_aliases process original s skip ms st) ≡ given_back st
  unfolding rebind_aliases
  aliases-given_back original s skip [] st = refl
  aliases-given_back original s skip (m ∷ ms) st =
      aliases-given_back original s skip ms _ ∙ elim (Bool-cases (m == skip)) [
        | inl e ↦ rw e refl
        | inr e ↦ rw e (names-given_back original s m (process.names m) st)
      ]

  wrapped-given_back :
      (s : ChokepointSpec) (owner : ℕ) (name : String) (id : ℕ) (st : Installing)
      → process.is_settable owner name ≡ true
      → st.bound owner name ≡ some (plain id)
      → given_back (wrapped process s owner name id st) ≡ given_back st
  unfolding wrapped
  wrapped-given_back s owner name id st k h =
      swept s.rebind_aliases ∙ bind-given_back owner name (wrapper s id) (plain id) st k h
    where
      first : Installing
      first = bind process owner name (wrapper s id) (plain id) st

      swept :
          (b : Bool)
          → given_back
              (if b then rebind_aliases process id s owner process.modules first else first)
            ≡ given_back first
      swept true = aliases-given_back id s owner process.modules first
      swept false = refl

  wrap_at-given_back :
      (s : ChokepointSpec) (owner : ℕ) (name : String) (o : Option Object) (st : Installing)
      {next : Installing}
      → st.bound owner name ≡ o
      → wrap_at process s owner name o st ≡ some next
      → given_back next ≡ given_back st
  unfolding wrap_at
  wrap_at-given_back s owner name none st h e = ap given_back (sym (some-injective _ _ e))
  wrap_at-given_back s owner name (some (wrapper w id)) st h e =
      ap given_back (sym (some-injective _ _ e))
  wrap_at-given_back s owner name (some (plain id)) st {next} h e =
      choose (process.is_settable owner name) refl e
    where
      choose :
          (b : Bool)
          → process.is_settable owner name ≡ b
          → (if not b then none else some (wrapped process s owner name id st)) ≡ some next
          → given_back next ≡ given_back st
      choose true k e =
          ap given_back (sym (some-injective _ _ e)) ∙ wrapped-given_back s owner name id st k h
      choose false k e = cc

  wrap_resolved-given_back :
      (s : ChokepointSpec) (place : Option (ℕ × String)) (st : Installing) {next : Installing}
      → wrap_resolved process s place st ≡ some next
      → given_back next ≡ given_back st
  wrap_resolved-given_back s none st e = ap given_back (sym (some-injective _ _ e))
  wrap_resolved-given_back s (some (owner, name)) st e =
      wrap_at-given_back s owner name (st.bound owner name) st refl e

  wrap_all-given_back :
      (ss : List ChokepointSpec) (st : Installing)
      → given_back (wrap_all process ss st).1 ≡ given_back st
  unfolding wrap_all
  wrap_all-given_back [] st = refl
  wrap_all-given_back (s ∷ ss) st =
      go (wrap_resolved process s (resolve process st.bound s) st) (wrap_all-given_back ss) refl
    where
      go :
          (o : Option Installing)
          → ((next : Installing) → given_back (wrap_all process ss next).1 ≡ given_back next)
          → wrap_resolved process s (resolve process st.bound s) st ≡ o
          → given_back (continue process o st (λ next. wrap_all process ss next)).1 ≡ given_back st
      go none ih e = refl
      go (some next) ih e = ih next ∙ wrap_resolved-given_back s (resolve process st.bound s) st e

  -- What `install` returned is taken back by `uninstall`, what it refused it took back itself.
  unfoldable pub IsTakenBack :
      ℕ → Installation → Result InstallFault InstallReport × Installation → Type 0
  IsTakenBack me st (ok report, after) =
      (after.active ≡ some me)
      × (after.report ≡ some report)
      × ((uninstall process me after).bound ≡ st.bound)
      × ((uninstall process me after).active ≡ none)
      × ((uninstall process me after).undo ≡ [])
  IsTakenBack me st (err fault, after) = after ≡ st

  no_longer : (me : ℕ) → (if me == me then none else some me) ≡ none
  no_longer me = ground arith

  nothing_to_undo : (st : Installation) → st.undo ≡ [] → restore process st.undo st.bound ≡ st.bound
  unfolding restore
  nothing_to_undo st h = rw h refl

  conclude-IsTakenBack :
      (me : ℕ) (specs : List ChokepointSpec) (strict : Bool) (st : Installation)
      (r : Bool × Installing)
      → st.undo ≡ []
      → given_back r.1 ≡ st.bound
      → IsTakenBack me st (conclude process me specs strict st r)
  unfolding conclude IsTakenBack uninstall
  conclude-IsTakenBack me specs strict st (false, made) h e =
      λ i. record st { bound = e i; undo = sym h i }
  conclude-IsTakenBack me specs strict st (true, made) h e =
      choose (strict && not (is_empty_failures (hard_failures specs made.report.unavailable)))
    where
      hard : List (String × Why)
      hard = hard_failures specs made.report.unavailable

      restored : Installation
      restored = record st { bound = given_back made; undo = [] }

      finished : Installation
      finished = record {
        bound = made.bound;
        active = some me;
        undo = made.undo;
        report = some made.report;
      }

      choose :
          (b : Bool)
          → IsTakenBack me st
              (if b then (err (unenforced hard), restored) else (ok made.report, finished))
      choose true = λ i. record st { bound = e i; undo = sym h i }
      choose false = (refl, refl, e, no_longer me, refl)

  -- For an interceptor whose undo list is empty, over any chokepoints, bindings and modules: when
  -- `install` raises, the process's bindings, the active interceptor, the undo list and the report are
  -- what they were. When it returns a report, the interceptor is active with that report, and
  -- `uninstall` gives back every binding as it was before, aliases included, and leaves no
  -- interceptor active and nothing to undo.
  pub install_is_undone :
      (me : ℕ) (specs : List ChokepointSpec) (strict : Bool) (st : Installation)
      → st.undo ≡ []
      → IsTakenBack me st (install process me specs strict st)
  unfolding install IsTakenBack
  install_is_undone me specs strict st h = elim (Bool-cases (is_some st.active)) [
    | inl e ↦ rw e refl
    | inr e ↦ rw e (
        conclude-IsTakenBack me specs strict st _ h
          (wrap_all-given_back specs _ ∙ nothing_to_undo st h))
  ]
