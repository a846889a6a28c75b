-- ===== src/Handoff/Rows.antt =====
-- The operations on the rows of the ledger (handoff_ledger.py, lines 270-308, 353-427 and 561-662). The
-- file is the list of the rows that a read of it gives: a row with a line separator in a text is written
-- in pieces, which the next read passes over, unless a piece is JSON by itself, which is not modelled.
-- The kernel's pointer and its mirror, and the reading and writing of the file, are `Host`, a parameter
-- of each operation.
use Prim.Native.Char.{Char, code}
use cc_suite.Prelude.{
  ℕ, Bool, true, false, not, ◌&&◌, ◌||◌, Option, none, some, List, [], ◌∷◌, ◌++◌, String, str_eq,
  str_append, is_truthy, ltb, if◌then◌else◌, any, filter, length, Result, ok, err, ◌>>=◌, ◌>>◌,
  raise_if, ◌==◌, all,
}
use cc_suite.Handoff.Entry.{
  Handoff, Clock, DataFault, unknown_status, undeclared_artifact, unknown_owner, bad_timestamp,
  or_raise, is_member, statuses, placeholder_artifact, is_known_owner, is_founder_owned,
  validate_entry, new_handoff,
}

-- What an operation raises: a fault of its data, that the id stands in the ledger, that the kernel's
-- pointer or its mirror is not as it should be, all of them LedgerErrors, a text that cannot
-- be decoded or encoded (a ValueError), or any other exception.
pub data Fault : Type 0 where
  invalid : DataFault → Fault
  already_exists kernel_misconfigured unmirrored not_text transient : Fault

-- The kernel's pointer for this ledger: not set, set wrongly, or set, with whether the mirror of the
-- rows is clean.
pub data Kernel : Type 0 where
  unset misconfigured : Kernel
  mirror : Bool → Kernel

pub record Host : Type 0 where
  pub kernel : Kernel
  -- whether the ledger can be locked and read, and whether it can be written, and whether what it
  -- raises where it cannot is a UnicodeError, which is a ValueError
  pub is_readable : Bool
  pub is_writable : Bool
  pub is_unicode_error : Bool

-- What an operation on a ledger that cannot be read or written raises.
abbrev pub failure : Host → Fault
failure host = if host.is_unicode_error then not_text else transient

abbrev pub is_misconfigured : Kernel → Bool
is_misconfigured misconfigured = true
is_misconfigured _ = false

-- `_mirror_kernel_after_legacy_write` raises.
abbrev pub mirror_fails : Kernel → Bool
mirror_fails (mirror clean) = not clean
mirror_fails _ = false

abbrev pub has_id : String → Handoff → Bool
has_id id r = str_eq r.handoff_id id

abbrev pub Rows : Type 0
Rows = List Handoff

-- U+0085, U+2028 and U+2029, at which `splitlines` breaks a line and which the JSON encoder, with
-- `ensure_ascii=False`, writes as they are.
abbrev is_separator : Char → Bool
is_separator c = code c == 133 || code c == 8232 || code c == 8233

unfoldable pub is_one_line : String → Bool
is_one_line String.[] = true
is_one_line (String.◌∷◌ c s) = let rest = is_one_line s in not (is_separator c) && rest

unfoldable pub is_plain : Handoff → Bool
unfolding is_one_line
is_plain r = all is_one_line (
    r.handoff_id ∷ r.from_agent ∷ r.owner_agent ∷ r.action ∷ r.expected_artifact ∷ r.opened_ts_utc
    ∷ r.deadline_utc ∷ r.status ∷ r.closed_ts_utc ∷ r.evidence_ptr ∷ r.note ∷ [])

-- The rows that `_read_all` gives after `_atomic_write_all`.
abbrev pub written : Rows → Rows
written rows = filter is_plain rows

-- The end of an operation that wrote the rows: the mirror may raise.
abbrev pub mirrored {ℓ} : {A : Type ℓ} → Host → Result Fault A → Rows → Result Fault A × Rows
mirrored host result rows = (if mirror_fails host.kernel then err unmirrored else result, rows)

unfoldable pub add_row : Host → Handoff → Rows → Result Fault Handoff × Rows
add_row host entry rows =
    if is_misconfigured host.kernel
    then (err kernel_misconfigured, rows)
    else if not host.is_readable
    then (err (failure host), rows)
    else if any (has_id entry.handoff_id) rows
    then mirrored host (err already_exists) rows
    else if not host.is_writable
    then (err (failure host), rows)
    else mirrored host (ok entry) (written (rows ++ entry ∷ []))

abbrev pub with_valid :
    Result DataFault Handoff
    → Rows
    → (Handoff → Result Fault Handoff × Rows)
    → Result Fault Handoff × Rows
with_valid (err fault) rows add = (err (invalid fault), rows)
with_valid (ok entry) rows add = add entry

abbrev pub unless_dup : Result Fault Handoff → Result Fault (Option Handoff)
unless_dup (ok row) = ok (some row)
unless_dup (err already_exists) = ok none
unless_dup (err fault) = err fault

module _ ⦃clock : Clock⦄ where
  -- `append_handoff`
  unfoldable pub append_handoff : Host → Handoff → Rows → Result Fault Handoff × Rows
  unfolding add_row
  append_handoff host entry rows = with_valid (validate_entry entry) rows (λ e. add_row host e rows)

  -- What `open_from_send` makes of its arguments.
  unfoldable pub send_entry :
      String → String → String → String → String → String → ℕ → Result DataFault Handoff
  send_entry send_id from_agent owner_agent action opened_ts_utc expected_artifact lifetime = do
    raise_if
        (not (is_truthy (clock.strip expected_artifact))
          || str_eq (clock.lower (clock.strip expected_artifact)) placeholder_artifact)
        undeclared_artifact
    raise_if (not (is_known_owner owner_agent)) unknown_owner
    new_handoff (str_append "send-" send_id) from_agent owner_agent action
        (clock.strip expected_artifact) opened_ts_utc lifetime ""

  -- `open_from_send`, where `none` is a send whose row stands already.
  unfoldable pub open_from_send :
      Host
      → String
      → String
      → String
      → String
      → String
      → String
      → ℕ
      → Rows
      → Result Fault (Option Handoff) × Rows
  open_from_send host send_id from_agent owner_agent action opened_ts_utc artifact lifetime rows =
      let (result, after) =
        with_valid
          (send_entry send_id from_agent owner_agent action opened_ts_utc artifact lifetime) rows
          (λ e. append_handoff host e rows) in
      (unless_dup result, after)

-- A change of status out of "open", or from "escalated" to "closed".
stamps : String → String → Bool
stamps expect to =
    str_eq expect "open" && (str_eq to "closed" || str_eq to "escalated")
    || str_eq expect "escalated" && str_eq to "closed"

unfoldable pub changed_row : String → String → String → String → Handoff → Handoff
unfolding stamps
changed_row expect to now_utc note r = record r {
  status = to;
  closed_ts_utc = if is_truthy now_utc && stamps expect to then now_utc else r.closed_ts_utc;
  note = if is_truthy note then note else r.note;
}

-- The loop of `cas_status`: the first row of this id in this status. A time or a note that is not
-- given is the blank text.
unfoldable pub swap_status : String → String → String → String → String → Rows → Bool × Rows
unfolding changed_row
swap_status id expect to now_utc note [] = (false, [])
swap_status id expect to now_utc note (r ∷ rs) =
    let rest = swap_status id expect to now_utc note rs in
    if has_id id r && str_eq r.status expect
    then (true, changed_row expect to now_utc note r ∷ rs)
    else (rest.0, r ∷ rest.1)

-- `cas_status`
unfoldable pub cas_status :
    Host → String → String → String → String → String → Rows → Result Fault Bool × Rows
cas_status host id expect to now_utc note rows =
    let swapped = swap_status id expect to now_utc note rows in
    if not (is_member statuses to)
    then (err (invalid unknown_status), rows)
    else if is_misconfigured host.kernel
    then (err kernel_misconfigured, rows)
    else if not host.is_readable || swapped.0 && not host.is_writable
    then (err (failure host), rows)
    else mirrored host (ok swapped.0) (if swapped.0 then written swapped.1 else rows)

-- `remove_handoff`
unfoldable pub remove_handoff : Host → String → Rows → Result Fault Bool × Rows
remove_handoff host id rows =
    let kept = filter (λ r. not (has_id id r)) rows in
    let changed = not (length kept == length rows) in
    if is_misconfigured host.kernel
    then (err kernel_misconfigured, rows)
    else if not host.is_readable || changed && not host.is_writable
    then (err (failure host), rows)
    else mirrored host (ok changed) (if changed then written kept else rows)

module _ ⦃clock : Clock⦄ where
  -- The rows whose deadline is past, where each deadline is read.
  past_rows : ℕ → Rows → Result DataFault Rows
  past_rows now [] = ok []
  past_rows now (r ∷ rs) = or_raise (clock.parse_ts r.deadline_utc) bad_timestamp >>= λ deadline.
      past_rows now rs >>= λ rest. ok (if ltb deadline now then r ∷ rest else rest)

  -- `query_open` with `past_deadline_only`, at a time that was read.
  unfoldable pub query_past_deadline : List String → ℕ → Rows → Result DataFault Rows
  unfolding past_rows
  query_past_deadline identities now rows =
      past_rows now (filter (λ r. str_eq r.status "open") rows) >>= λ past.
      ok (filter (λ r. not (is_founder_owned identities r)) past)

  -- `query_escalated`
  unfoldable pub query_escalated : List String → Rows → Rows
  query_escalated identities rows =
      filter (λ r. str_eq r.status "escalated" && not (is_founder_owned identities r)) rows
