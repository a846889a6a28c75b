-- ===== src/Effects/Evolution.antt =====
-- What each step of `install` keeps of the bindings and of the report (effect_control.py, lines
-- 756-773 and 812-836).
use cc_suite.Prelude.{
  any-append_left, any-append_last, ℕ, ◌≡◌, refl, sym, ◌∙◌, Bool, true, false, ◌&&◌, Option, none,
  some, List, [], ◌∷◌, String, str_eq, ◌==◌, if◌then◌else◌, Bool-cases, ◌⊎◌, inl, inr, arith,
  eq_iff, any,
}
use cc_suite.Effects.Calls.{ChokepointSpec}
use cc_suite.Effects.Install.{
  Object, plain, wrapper, Bindings, is_place, set_binding, Process, Installing, bind, wrapped,
  rebind_names, rebind_aliases, resolve, Why, is_original, walk, split_path, owner_of, and_then,
  missing_at,
}
use cc_suite.Effects.Restore.{place-eq, original-eq}

-- Every binding is as it was, or an object's wrapper stands in the object's place.
abbrev pub Evolves : Bindings → Bindings → Type 0
Evolves b0 b =
    (o : ℕ) (n : String)
    → (b o n ≡ b0 o n)
      ⊎ ((s : ChokepointSpec) × (id : ℕ) × (b0 o n ≡ some (plain id))
          × (b o n ≡ some (wrapper s id)))

pub Evolves-keeps :
    (b0 b : Bindings) (o : ℕ) (n : String) {s : ChokepointSpec} {id : ℕ}
    → Evolves b0 b
    → b0 o n ≡ some (wrapper s id)
    → b o n ≡ some (wrapper s id)
Evolves-keeps b0 b o n h e = elim (h o n) [ inl k ↦ k ∙ e | inr (t, id, k, m) ↦ cc ]

pub Evolves-plain :
    (b0 b : Bindings) (o : ℕ) (n : String) {id : ℕ}
    → Evolves b0 b
    → b o n ≡ some (plain id)
    → b0 o n ≡ some (plain id)
Evolves-plain b0 b o n h e = elim (h o n) [ inl k ↦ sym k ∙ e | inr (t, id, k, m) ↦ cc ]

pub Evolves-trans : (b0 b1 b2 : Bindings) → Evolves b0 b1 → Evolves b1 b2 → Evolves b0 b2
Evolves-trans b0 b1 b2 h k o n = elim (k o n) [
  | inl e ↦ elim (h o n) [ inl f ↦ inl (e ∙ f) | inr (s, id, f, g) ↦ inr (s, id, f, e ∙ g) ]
  | inr (s, id, e, g) ↦ inr (s, id, Evolves-plain b0 b1 o n h e, g)
]

walk-back :
    (b0 b : Bindings) (owner : ℕ) (parts : List String) {place : ℕ × String}
    → Evolves b0 b
    → walk b owner parts ≡ some place
    → walk b0 owner parts ≡ some place
unfolding walk
walk-back b0 b owner [] h e = e
walk-back b0 b owner (last ∷ []) h e = e
walk-back b0 b owner (part ∷ next ∷ rest) {place} h e =
    step (b owner part) refl e (λ o. walk-back b0 b o (next ∷ rest) h)
  where
    step :
        (x : Option Object)
        → b owner part ≡ x
        → and_then (owner_of x) (λ o. walk b o (next ∷ rest)) ≡ some place
        → ((o : ℕ) → walk b o (next ∷ rest) ≡ some place → walk b0 o (next ∷ rest) ≡ some place)
        → and_then (owner_of (b0 owner part)) (λ o. walk b0 o (next ∷ rest)) ≡ some place
    step none k e ih = cc
    step (some (plain id)) k e ih = rw (Evolves-plain b0 b owner part h k) (ih id e)
    step (some (wrapper s id)) k e ih = cc

-- A name stands among the chokepoints that were not available.
abbrev pub is_missing : Installing → String → Bool
is_missing st name = any (λ u. str_eq u.0 name) st.report.unavailable

-- What every step of `install` keeps.
pub record Later (st next : Installing) : Type 0 where
  pub evolves : Evolves st.bound next.bound
  pub grows : (name : String) → is_missing st name ≡ true → is_missing next name ≡ true

pub Later-refl : (st : Installing) → Later st st
Later-refl st = record { evolves = λ o n. inl refl; grows = λ name h. h }

pub Later-trans : {s0 s1 s2 : Installing} → Later s0 s1 → Later s1 s2 → Later s0 s2
Later-trans {s0} {s1} {s2} h k = record {
  evolves = Evolves-trans s0.bound s1.bound s2.bound h.evolves k.evolves;
  grows = λ name e. k.grows name (h.grows name e);
}

module _ (process : Process) where
  bind-Later :
      (owner : ℕ) (name : String) (s : ChokepointSpec) (id : ℕ) (st : Installing)
      → st.bound owner name ≡ some (plain id)
      → Later st (bind process owner name (wrapper s id) (plain id) st)
  unfolding bind set_binding
  bind-Later owner name s id st h = record { evolves = λ o n. at o n; grows = λ name h. h }
    where
      at :
          (o : ℕ) (n : String)
          → ((if is_place owner name o n then some (wrapper s id) else st.bound o n) ≡ st.bound o n)
            ⊎ ((t : ChokepointSpec) × (x : ℕ) × (st.bound o n ≡ some (plain x))
                × ((if is_place owner name o n then some (wrapper s id) else st.bound o n)
                    ≡ some (wrapper t x)))
      at o n = elim (Bool-cases (is_place owner name o n)) [
        | inl e ↦ (let (x, y) = place-eq owner name o n e in inr (s, id, rw (x, y) h, rw e refl))
        | inr e ↦ inl (rw e refl)
      ]

  name-Later :
      (original : ℕ) (s : ChokepointSpec) (m : ℕ) (name : String) (st : Installing) (b : Bool)
      → (is_original process (st.bound m name) original && process.is_settable m name) ≡ b
      → Later st (if b then bind process m name (wrapper s original) (plain original) st else st)
  name-Later original s m name st true h =
      let e : is_original process (st.bound m name) original ≡ true = ground arith in
      bind-Later m name s original st (original-eq process _ original e)
  name-Later original s m name st false h = Later-refl st

  names-Later :
      (original : ℕ) (s : ChokepointSpec) (m : ℕ) (names : List String) (st : Installing)
      → Later st (rebind_names process original s m names st)
  unfolding rebind_names
  names-Later original s m [] st = Later-refl st
  names-Later original s m (name ∷ names) st =
      Later-trans (name-Later original s m name st _ refl) (names-Later original s m names _)

  aliases-Later :
      (original : ℕ) (s : ChokepointSpec) (skip : ℕ) (ms : List ℕ) (st : Installing)
      → Later st (rebind_aliases process original s skip ms st)
  unfolding rebind_aliases
  aliases-Later original s skip [] st = Later-refl st
  aliases-Later original s skip (m ∷ ms) st =
      Later-trans (first (m == skip)) (aliases-Later original s skip ms _)
    where
      first :
          (b : Bool)
          → Later st (if b then st else rebind_names process original s m (process.names m) st)
      first true = Later-refl st
      first false = names-Later original s m (process.names m) st

  pub resolve-back :
      (b0 b : Bindings) (s : ChokepointSpec) {place : ℕ × String}
      → Evolves b0 b
      → resolve process b s ≡ some place
      → resolve process b0 s ≡ some place
  unfolding resolve
  resolve-back b0 b s {place} h = step (process.import_module s.module_name)
    where
      step :
          (x : Option ℕ)
          → and_then x (λ o. walk b o (split_path s.attr_path)) ≡ some place
          → and_then x (λ o. walk b0 o (split_path s.attr_path)) ≡ some place
      step none e = e
      step (some o) e = walk-back b0 b o (split_path s.attr_path) h e

  set_binding-here :
      (owner : ℕ) (name : String) (w : Object) (b : Bindings)
      → set_binding owner name w b owner name ≡ some w
  unfolding set_binding
  set_binding-here owner name w b =
      let e : (owner == owner) ≡ true = ground arith in
      let f : str_eq name name ≡ true = (eq_iff name name).1 refl in rw (e, f) refl

  pub wrapped-Later :
      (s : ChokepointSpec) (owner : ℕ) (name : String) (id : ℕ) (st : Installing)
      → st.bound owner name ≡ some (plain id)
      → Later st (wrapped process s owner name id st)
        × ((wrapped process s owner name id st).bound owner name ≡ some (wrapper s id))
  unfolding wrapped bind
  wrapped-Later s owner name id st h =
      let bound_first = bind-Later owner name s id st h in
      let later = aliased s.rebind_aliases in
      (
        Later-trans bound_first (record { evolves = later.evolves; grows = later.grows }),
        Evolves-keeps first.bound _ owner name later.evolves
            (set_binding-here owner name _ st.bound),
      )
    where
      first : Installing
      first = bind process owner name (wrapper s id) (plain id) st

      aliased :
          (b : Bool)
          → Later first
              (if b then rebind_aliases process id s owner process.modules first else first)
      aliased true = aliases-Later id s owner process.modules first
      aliased false = Later-refl first

  pub missing-Later :
      (s : ChokepointSpec) (why : Why) (st : Installing)
      → Later st (missing_at process s why st)
        × (is_missing (missing_at process s why st) s.name ≡ true)
  missing-Later s why st = (
    record {
      evolves = λ o n. inl refl;
      grows = λ name h. any-append_left (λ u. str_eq u.0 name) st.report.unavailable _ h;
    },
    any-append_last (λ u. str_eq u.0 s.name) st.report.unavailable (s.name, why)
        ((eq_iff s.name s.name).1 refl),
  )
