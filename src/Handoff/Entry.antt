-- ===== src/Handoff/Entry.antt =====
-- A row of the ledger, its validation and the predicates on owners (handoff_ledger.py, lines 59-234).
-- Every field of a row is a text here, so that the tests of presence and of type are not needed. The
-- reading and printing of ISO times, `strip`, `lower` and `isdigit` are parameters. A lifetime is a
-- natural number of microseconds.
use Prim.Native.Nat.{◌*◌}
use Prim.Native.Char.{Char, code}
use cc_suite.Prelude.{
  ℕ, ◌+◌, ◌-◌, Bool, false, not, ◌&&◌, ◌||◌, Option, none, some, List, [], ◌∷◌, String, str_eq,
  nonblank, is_truthy, ltb, leb, ◌==◌, if◌then◌else◌, any, Result, ok, err, ◌>>=◌, ◌>>◌, raise_if,
}
use cc_suite.Authority.Matrix.{starts_with}

pub record Handoff : Type 0 where
  pub handoff_id : String
  pub from_agent : String
  pub owner_agent : String
  pub action : String
  pub expected_artifact : String
  pub opened_ts_utc : String
  pub deadline_utc : String
  pub status : String
  pub closed_ts_utc : String
  pub evidence_ptr : String
  pub note : String

pub record Clock : Type 0 where
  -- `_parse_ts` as microseconds, with `none` where it raises, and `_iso`
  pub parse_ts : String → Option ℕ
  pub iso : ℕ → String
  pub strip : String → String
  pub lower : String → String
  pub is_digits : String → Bool

-- A ValueError, of which LedgerError is one, on the data of a row.
pub data DataFault : Type 0 where
  empty_field : String → DataFault
  unknown_status ephemeral_evidence bad_timestamp deadline_not_after : DataFault
  undeclared_artifact unknown_owner : DataFault

abbrev pub second : ℕ
second = 1000000

abbrev pub sweep_interval : ℕ
sweep_interval = 180 * second

abbrev pub deadline_default : ℕ
deadline_default = 2 * 60 * 60 * second

abbrev pub deadline_min : ℕ
deadline_min = 2 * sweep_interval

abbrev pub deadline_max : ℕ
deadline_max = 4 * 60 * 60 * second

unfoldable pub clamp_deadline : ℕ → ℕ
clamp_deadline n =
    let lowered = if ltb n deadline_max then n else deadline_max in
    if ltb deadline_min lowered then lowered else deadline_min

abbrev pub is_member : List String → String → Bool
is_member names s = any (λ n. str_eq n s) names

abbrev pub statuses : List String
statuses = "open" ∷ "closed" ∷ "escalated" ∷ []

abbrev pub ephemeral_prefixes : List String
ephemeral_prefixes = "/tmp" ∷ "/private/tmp" ∷ "/var/folders" ∷ []

abbrev pub known_owner_roles : List String
known_owner_roles =
    "ccto" ∷ "ccpo" ∷ "ccro" ∷ "ccfo" ∷ "ccmo" ∷ "cclo" ∷ "ccgo" ∷ "ccco" ∷ "ccde" ∷ "cos"
    ∷ "scribe" ∷ "utility" ∷ []

abbrev pub placeholder_artifact : String
placeholder_artifact = "handoff acknowledged + drained"

abbrev before_dash : Char → Option (String × String) → String → Option (String × String)
before_dash c (some (base, tail)) rest = some (String.◌∷◌ c base, tail)
before_dash c none rest = if code c == 45 then some (String.[], rest) else none

-- `rpartition("-")`, with `none` where there is no dash.
unfoldable pub rpartition : String → Option (String × String)
rpartition String.[] = none
rpartition (String.◌∷◌ c s) = before_dash c (rpartition s) s

-- `NON_EMPTY_FIELDS`
abbrev pub non_empty_fields : Handoff → List (String × String)
non_empty_fields e =
    ("handoff_id", e.handoff_id)
    ∷ ("from_agent", e.from_agent)
    ∷ ("owner_agent", e.owner_agent)
    ∷ ("action", e.action)
    ∷ ("expected_artifact", e.expected_artifact)
    ∷ ("opened_ts_utc", e.opened_ts_utc)
    ∷ ("deadline_utc", e.deadline_utc)
    ∷ ("status", e.status)
    ∷ []

unfoldable pub check_fields : List (String × String) → Result DataFault (Unit {0})
check_fields [] = ok tt
check_fields ((name, value) ∷ rest) = do
  raise_if (not (nonblank value)) (empty_field name)
  check_fields rest

-- `max(MIN, min(MAX, delta))` after `opened`, for a deadline after it.
abbrev pub or_raise {ℓ} : {A : Type ℓ} → Option A → DataFault → Result DataFault A
or_raise none fault = err fault
or_raise (some a) fault = ok a

module _ ⦃clock : Clock⦄ where
  abbrev is_owner_with : Option (String × String) → Bool
  is_owner_with none = false
  is_owner_with (some (base, tail)) = is_member known_owner_roles base && clock.is_digits tail

  unfoldable pub is_known_owner : String → Bool
  unfolding rpartition
  is_known_owner owner =
      let o = clock.lower (clock.strip owner) in
      is_truthy o && (is_member known_owner_roles o || is_owner_with (rpartition o))

  -- The founder's identities are those of the environment.
  unfoldable pub is_founder_owned : List String → Handoff → Bool
  is_founder_owned identities e =
      is_member ("founder" ∷ identities) (clock.lower (clock.strip e.owner_agent))

  unfoldable pub closed_check : Handoff → Result DataFault (Unit {0})
  closed_check e =
      if nonblank e.closed_ts_utc
      then or_raise (clock.parse_ts e.closed_ts_utc) bad_timestamp >>= (λ t. ok tt)
      else ok tt

  -- `validate_entry`
  unfoldable pub validate_entry : Handoff → Result DataFault Handoff
  unfolding check_fields closed_check clamp_deadline
  validate_entry e = do
    check_fields (non_empty_fields e)
    raise_if (not (is_member statuses e.status)) unknown_status
    raise_if (nonblank e.evidence_ptr && any (λ p. starts_with e.evidence_ptr p) ephemeral_prefixes)
        ephemeral_evidence
    opened ← or_raise (clock.parse_ts e.opened_ts_utc) bad_timestamp
    deadline ← or_raise (clock.parse_ts e.deadline_utc) bad_timestamp
    raise_if (leb deadline opened) deadline_not_after
    closed_check e
    ok (record e { deadline_utc = clock.iso (opened + clamp_deadline (deadline - opened)) })

  -- `new_handoff`
  unfoldable pub new_handoff :
      String → String → String → String → String → String → ℕ → String → Result DataFault Handoff
  new_handoff handoff_id from_agent owner_agent action artifact opened_ts_utc lifetime note = do
    opened ← or_raise (clock.parse_ts opened_ts_utc) bad_timestamp
    validate_entry (record {
      handoff_id = handoff_id;
      from_agent = from_agent;
      owner_agent = owner_agent;
      action = action;
      expected_artifact = artifact;
      opened_ts_utc = opened_ts_utc;
      deadline_utc = clock.iso (opened + clamp_deadline lifetime);
      status = "open";
      closed_ts_utc = "";
      evidence_ptr = "";
      note = note;
    })
