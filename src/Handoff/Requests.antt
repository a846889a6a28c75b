-- ===== src/Handoff/Requests.antt =====
-- The log of requests and `drain_open_requests` (handoff_ledger.py, lines 430-558). The JSON decoder and
-- sha-1 are parameters, and so is what the drain meets on its machine at each line.
use cc_suite.Prelude.{
  ℕ, zero, suc, ◌+◌, Bool, true, false, not, ◌&&◌, ◌||◌, Option, none, some, List, [], ◌∷◌, String,
  str_eq, is_truthy, ltb, if◌then◌else◌, length, drop, get_elem?, Result, ok, err,
}
use cc_suite.Inbox.Lines.{complete_lines}
use cc_suite.Handoff.Entry.{Handoff, Clock, deadline_default}
use cc_suite.Handoff.Rows.{Fault, transient, Host, Rows, open_from_send}

-- `deadline_seconds` of a request: not given, or nothing that `float` reads; read by it; or an integer
-- on which it raises an OverflowError.
pub data Lifetime : Type 0 where
  no_lifetime overflows : Lifetime
  lifetime : ℕ → Lifetime

-- A request, each field as the text of its value, blank where it is missing or false.
pub record Request : Type 0 where
  pub send_id : String
  pub from_agent : String
  pub owner_agent : String
  pub action : String
  pub opened_ts_utc : String
  pub expected_artifact : String
  pub deadline : Lifetime

-- What `json.loads` makes of a line: a JSONDecodeError, a value that is no object, an object, or an
-- error of another class, such as a ValueError on an integer with too many digits.
pub data Parsed : Type 0 where
  malformed not_object raises_other : Parsed
  request : Request → Parsed

pub record Reader : Type 0 where
  -- `json.loads`
  pub loads : String → Parsed
  pub sha1 : String → String

-- `_request_lines` of a log that is there.
abbrev pub request_lines : String → List String
request_lines raw = complete_lines (some raw)

pub record RequestCursor : Type 0 where
  pub line : ℕ
  pub anchor : String

abbrev pub or_text : String → String → String
or_text s default = if is_truthy s then s else default

-- `none` where the OverflowError leaves the drain.
abbrev pub seconds_of : Lifetime → Option ℕ
seconds_of no_lifetime = some deadline_default
seconds_of overflows = none
seconds_of (lifetime n) = some n

abbrev pub is_complete : Request → Bool
is_complete r = is_truthy r.send_id && is_truthy r.opened_ts_utc

-- What the loop of the drain keeps, with whether an error left the loop.
pub record Drained : Type 0 where
  pub opened : ℕ
  pub processed : ℕ
  pub rows : Rows
  pub escaped : Bool

abbrev pub ended : Bool → Rows → Drained
ended escaped rows = record { opened = 0; processed = 0; rows = rows; escaped = escaped }

abbrev pub is_transient : Fault → Bool
is_transient transient = true
is_transient _ = false

module _ ⦃clock : Clock⦄ ⦃reader : Reader⦄ where
  -- The row that a request opens.
  unfoldable pub open_request : Host → Request → ℕ → Rows → Result Fault (Option Handoff) × Rows
  open_request host r seconds rows =
      open_from_send host r.send_id (or_text r.from_agent "unknown")
        (or_text r.owner_agent "unknown") (or_text r.action "task handoff") r.opened_ts_utc
        r.expected_artifact seconds rows

  abbrev pub skip : Drained → Drained
  skip rest = record rest { processed = suc rest.processed }

  abbrev pub count_opened : Drained → Drained
  count_opened rest = record rest { opened = suc rest.opened; processed = suc rest.processed }

  -- The end of one round: a transient error holds, any other passes over the line.
  abbrev pub by_result : Result Fault (Option Handoff) × Rows → Rows → (Rows → Drained) → Drained
  by_result (err fault, after) rows next =
      if is_transient fault then ended false after else skip (next after)
  by_result (ok none, after) rows next = skip (next after)
  by_result (ok (some row), after) rows next = count_opened (next after)

  abbrev pub by_lifetime : Host → Request → Option ℕ → Rows → (Rows → Drained) → Drained
  by_lifetime host r none rows next = ended true rows
  by_lifetime host r (some seconds) rows next =
      by_result (open_request host r seconds rows) rows next

  abbrev pub by_line : Host → Parsed → Rows → (Rows → Drained) → Drained
  by_line host malformed rows next = skip (next rows)
  by_line host not_object rows next = skip (next rows)
  by_line host raises_other rows next = ended true rows
  by_line host (request r) rows next =
      if is_complete r
      then by_lifetime host r (seconds_of r.deadline) rows next
      else skip (next rows)

  -- The loop of `drain_open_requests`, with the host that each round meets.
  unfoldable pub drain_lines : (ℕ → Host) → List String → Rows → Drained
  unfolding open_request
  drain_lines hosts [] rows = ended false rows
  drain_lines hosts (line ∷ lines) rows =
      by_line (hosts 0) (reader.loads line) rows
        (λ after. drain_lines (λ n. hosts (suc n)) lines after)

  abbrev differs : Option String → String → Bool
  differs none anchor = true
  differs (some prev) anchor = not (str_eq (reader.sha1 prev) anchor)

  abbrev diverged_at : ℕ → String → List String → Bool
  diverged_at zero anchor lines = false
  diverged_at (suc n) anchor lines = is_truthy anchor && differs (get_elem? lines n) anchor

  -- Where the drain starts: from 0 after a desync.
  unfoldable pub start_line : RequestCursor → List String → ℕ
  start_line c lines =
      if ltb (length lines) c.line || diverged_at c.line c.anchor lines then 0 else c.line

  abbrev or_blank : Option String → String
  or_blank none = ""
  or_blank (some line) = reader.sha1 line

  abbrev anchor_at : ℕ → List String → String
  anchor_at zero lines = ""
  anchor_at (suc n) lines = or_blank (get_elem? lines n)

  -- `drain_open_requests` of a log that is there: the count of rows opened, the rows, and the cursor
  -- that is written where it can be. An error that leaves the loop leaves the cursor as it was.
  unfoldable pub drain_open_requests :
      (ℕ → Host) → Bool → String → RequestCursor → Rows → Option ℕ × Rows × RequestCursor
  drain_open_requests hosts can_save raw cursor rows =
      let lines = request_lines raw in
      let start = start_line cursor lines in
      let d = drain_lines hosts (drop start lines) rows in
      let moved : RequestCursor = record {
        line = start + d.processed;
        anchor = anchor_at (start + d.processed) lines;
      } in
      if d.escaped
      then (none, d.rows, cursor)
      else (some d.opened, d.rows, if can_save then moved else cursor)
