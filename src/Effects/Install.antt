-- ===== src/Effects/Install.antt =====
-- `install`, `uninstall` and what they bind (effect_control.py, lines 751-836). The namespaces of the
-- process are a function from owners and names to the objects bound there: of the attributes that
-- an owner inherits or computes, the model has none. The module of a name and whether a binding can be
-- set are parameters, and the names of a module do not change.
use Prim.Native.Char.{Char, code}
use cc_suite.Prelude.{
  ℕ, Bool, true, false, not, ◌&&◌, Option, none, some, List, [], ◌∷◌, ◌++◌, String, str_eq, ◌==◌,
  if◌then◌else◌, filter, is_some, Result, ok, err,
}
use cc_suite.Effects.Calls.{ChokepointSpec}

-- An object: one that was there before, by its identity, or the wrapper of such an object.
pub data Object : Type 0 where
  plain : ℕ → Object
  wrapper : ChokepointSpec → ℕ → Object

-- Every owner of attributes is an object, by its identity.
abbrev pub Bindings : Type 0
Bindings = ℕ → String → Option Object

abbrev pub is_place : ℕ → String → ℕ → String → Bool
is_place owner name o n = o == owner && str_eq n name

-- `setattr(owner, name, value)`
unfoldable pub set_binding : ℕ → String → Object → Bindings → Bindings
set_binding owner name value b o n = if is_place owner name o n then some value else b o n

pub record Process : Type 0 where
  -- `importlib.import_module`, with `none` where it raises
  pub import_module : String → Option ℕ
  -- the modules of `sys.modules`, and the names of each
  pub modules : List ℕ
  pub names : ℕ → List String
  -- whether `setattr` at this place succeeds
  pub is_settable : ℕ → String → Bool

pub data Why : Type 0 where
  unresolved already_wrapped : Why

pub record InstallReport : Type 0 where
  pub installed : List String
  pub unavailable : List (String × Why)

abbrev pub Undo : Type 0
Undo = ℕ × String × Object

pub record Installing : Type 0 where
  pub bound : Bindings
  pub undo : List Undo
  pub report : InstallReport

abbrev is_dot : Char → Bool
is_dot c = code c == 46

abbrev with_head : Char → List String → List String
with_head c [] = String.◌∷◌ c String.[] ∷ []
with_head c (part ∷ parts) = String.◌∷◌ c part ∷ parts

-- `attr_path.split(".")`
unfoldable pub split_path : String → List String
split_path String.[] = String.[] ∷ []
split_path (String.◌∷◌ c s) =
    let rest = split_path s in if is_dot c then String.[] ∷ rest else with_head c rest

abbrev pub owner_of : Option Object → Option ℕ
owner_of (some (plain id)) = some id
owner_of _ = none

abbrev pub and_then {ℓ κ} : {A : Type ℓ} {B : Type κ} → Option A → (A → Option B) → Option B
and_then none f = none
and_then (some a) f = f a

-- The walk from an owner along the parts to the last owner and the last part.
unfoldable pub walk : Bindings → ℕ → List String → Option (ℕ × String)
walk b owner [] = none
walk b owner (last ∷ []) = some (owner, last)
walk b owner (part ∷ next ∷ rest) = and_then (owner_of (b owner part)) λ o. walk b o (next ∷ rest)

module _ (process : Process) where
  -- `_resolve`
  unfoldable pub resolve : Bindings → ChokepointSpec → Option (ℕ × String)
  unfolding walk split_path
  resolve b s =
      and_then (process.import_module s.module_name) λ o. walk b o (split_path s.attr_path)

  -- One binding, and its entry in the undo list, whose last entry stands first.
  unfoldable pub bind : ℕ → String → Object → Object → Installing → Installing
  bind owner name wrapped original st = record st {
    bound = set_binding owner name wrapped st.bound;
    undo = (owner, name, original) ∷ st.undo;
  }

  abbrev pub is_original : Option Object → ℕ → Bool
  is_original (some (plain id)) original = id == original
  is_original _ original = false

  -- The loops of `_rebind_aliases`, over the names of a module and over the modules.
  unfoldable pub rebind_names : ℕ → ChokepointSpec → ℕ → List String → Installing → Installing
  rebind_names original s module_id [] st = st
  rebind_names original s module_id (name ∷ names) st = rebind_names original s module_id names (
      if is_original (st.bound module_id name) original && process.is_settable module_id name
      then bind module_id name (wrapper s original) (plain original) st
      else st)

  unfoldable pub rebind_aliases : ℕ → ChokepointSpec → ℕ → List ℕ → Installing → Installing
  rebind_aliases original s skip [] st = st
  rebind_aliases original s skip (m ∷ ms) st =
      rebind_aliases original s skip ms
        (if m == skip then st else rebind_names original s m (process.names m) st)

  abbrev pub missing_at : ChokepointSpec → Why → Installing → Installing
  missing_at s why st = record st {
    report = record st.report { unavailable = st.report.unavailable ++ (s.name, why) ∷ [] };
  }

  abbrev pub installed_at : ChokepointSpec → Installing → Installing
  installed_at s st = record st {
    report = record st.report { installed = st.report.installed ++ s.name ∷ [] };
  }

  -- A chokepoint is bound to the wrapper of the object at its place, with the aliases of that object.
  unfoldable pub wrapped : ChokepointSpec → ℕ → String → ℕ → Installing → Installing
  wrapped s owner name id st =
      let first = bind owner name (wrapper s id) (plain id) st in
      installed_at s
        (if s.rebind_aliases then rebind_aliases id s owner process.modules first else first)

  -- One chokepoint whose place is known, with the object that is bound there; `none` where `setattr`
  -- raises.
  unfoldable pub wrap_at :
      ChokepointSpec → ℕ → String → Option Object → Installing → Option Installing
  wrap_at s owner name none st = some (missing_at s unresolved st)
  wrap_at s owner name (some (wrapper w id)) st = some (missing_at s already_wrapped st)
  wrap_at s owner name (some (plain id)) st =
      if not (process.is_settable owner name) then none else some (wrapped s owner name id st)

  abbrev pub wrap_resolved : ChokepointSpec → Option (ℕ × String) → Installing → Option Installing
  wrap_resolved s none st = some (missing_at s unresolved st)
  wrap_resolved s (some (owner, name)) st = wrap_at s owner name (st.bound owner name) st

  abbrev pub continue :
      Option Installing → Installing → (Installing → Bool × Installing) → Bool × Installing
  continue none st next = (false, st)
  continue (some after) st next = next after

  -- The loop of `install` over the chokepoints: the state at its end, or at the `setattr` that raised.
  unfoldable pub wrap_all : List ChokepointSpec → Installing → Bool × Installing
  unfolding resolve
  wrap_all [] st = (true, st)
  wrap_all (s ∷ ss) st =
      continue (wrap_resolved s (resolve st.bound s) st) st λ next. wrap_all ss next

  -- `_restore`: a `setattr` that raises changes nothing.
  unfoldable pub restore : List Undo → Bindings → Bindings
  restore [] b = b
  restore ((owner, name, original) ∷ undo) b =
      restore undo (if process.is_settable owner name then set_binding owner name original b else b)

abbrev pub optional_from : List ChokepointSpec → String → Bool → Bool
optional_from [] name so_far = so_far
optional_from (s ∷ ss) name so_far =
    optional_from ss name (if str_eq s.name name then s.optional else so_far)

-- `{spec.name: spec.optional for spec in self.chokepoints}.get(name, False)`
unfoldable pub optional_by_name : List ChokepointSpec → String → Bool
optional_by_name specs name = optional_from specs name false

unfoldable pub hard_failures : List ChokepointSpec → List (String × Why) → List (String × Why)
unfolding optional_by_name
hard_failures specs unavailable = filter (λ u. not (optional_by_name specs u.0)) unavailable

pub data InstallFault : Type 0 where
  already_installed not_settable : InstallFault
  unenforced : List (String × Why) → InstallFault

-- What an interceptor and the class keep: the bindings of the process, the interceptor that is
-- installed in it, and the undo list and the report of this one.
pub record Installation : Type 0 where
  pub bound : Bindings
  pub active : Option ℕ
  pub undo : List Undo
  pub report : Option InstallReport

abbrev pub is_me : Option ℕ → ℕ → Bool
is_me none me = false
is_me (some other) me = other == me

abbrev pub is_empty_failures : List (String × Why) → Bool
is_empty_failures [] = true
is_empty_failures (u ∷ us) = false

module _ (process : Process) where
  -- The end of `install`, from what its loop made of the bindings.
  unfoldable pub conclude :
      ℕ
      → List ChokepointSpec
      → Bool
      → Installation
      → Bool × Installing
      → Result InstallFault InstallReport × Installation
  conclude me specs strict st (false, made) =
      (err not_settable, record st { bound = restore process made.undo made.bound; undo = [] })
  conclude me specs strict st (true, made) =
      let hard = hard_failures specs made.report.unavailable in
      if strict && not (is_empty_failures hard)
      then (
        err (unenforced hard),
        record st { bound = restore process made.undo made.bound; undo = [] },
      )
      else (
        ok made.report,
        record {
          bound = made.bound;
          active = some me;
          undo = made.undo;
          report = some made.report;
        },
      )

  -- `install`
  unfoldable pub install :
      ℕ
      → List ChokepointSpec
      → Bool
      → Installation
      → Result InstallFault InstallReport × Installation
  unfolding conclude
  install me specs strict st =
      let start : Installing = record {
        bound = st.bound;
        undo = st.undo;
        report = record { installed = []; unavailable = [] };
      } in
      if is_some st.active
      then (err already_installed, st)
      else conclude me specs strict st (wrap_all process specs start)

  -- `uninstall`
  unfoldable pub uninstall : ℕ → Installation → Installation
  uninstall me st = record st {
    bound = restore process st.undo st.bound;
    undo = [];
    active = if is_me st.active me then none else st.active;
  }
