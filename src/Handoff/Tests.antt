-- ===== src/Handoff/Tests.antt =====
-- The theorems on handoff_ledger.py at concrete rows, clocks and logs.
use Prim.Native.Char.{Char, code}
use cc_suite.Prelude.{
  ℕ, Bool, is_some, zero, suc, ◌+◌, ◌≤◌, ◌≡◌, ◌≢◌, refl, true, false, not, ◌&&◌, Option, none, some,
  List, [], ◌∷◌, String, str_eq, ok, leb, ◌==◌, take, drop, nonblank, is_space, ap, if◌then◌else◌,
  eq_iff,
}
use cc_suite.Handoff.Entry.{
  Handoff, Clock, validate_entry, is_member, statuses, check_fields, closed_check, clamp_deadline,
}
use cc_suite.Handoff.Deadlines.{validated_deadline_is_bounded}
use cc_suite.Handoff.Rows.{
  is_plain, is_one_line, Host, unset, cas_status, append_handoff, add_row, swap_status, changed_row,
}
use cc_suite.Handoff.Requests.{
  no_lifetime, Reader, Request, request, RequestCursor, drain_open_requests, start_line,
  request_lines,
}
use cc_suite.Handoff.Opened.{Grown}
use cc_suite.Handoff.Passed.{ArePassed, IsStopped, drained_requests_are_open}
use cc_suite.Handoff.Once.{IsUnique}
use cc_suite.Handoff.Changes.{
  Change, adds, swaps, removes, after_changes, is_apart, status_changes_once,
}

abbrev stroke : Char
stroke = "I"

-- A time is printed as one stroke for each microsecond.
strokes : ℕ → String
strokes zero = "d"
strokes (suc n) = String.◌∷◌ stroke (strokes n)

abbrev one_more : Option ℕ → Option ℕ
one_more none = none
one_more (some n) = some (suc n)

count_strokes : String → Option ℕ
count_strokes String.[] = none
count_strokes (String.◌∷◌ c s) = if code c == 73 then one_more (count_strokes s) else some 0

count_strokes-strokes : (n : ℕ) → count_strokes (strokes n) ≡ some n
unfolding strokes count_strokes
count_strokes-strokes zero = refl
count_strokes-strokes (suc n) = ap one_more (count_strokes-strokes n)

strokes-nonblank : (n : ℕ) → nonblank (strokes n) ≡ true
unfolding strokes nonblank is_space
strokes-nonblank zero = refl
strokes-nonblank (suc n) = refl

abbrev stroke_clock : Clock
stroke_clock = record {
  parse_ts = count_strokes;
  iso = strokes;
  strip = λ s. s;
  lower = λ s. s;
  is_digits = λ s. false;
}

abbrev row : String → String → Handoff
row opened deadline = record {
  handoff_id = "h";
  from_agent = "cos";
  owner_agent = "ccde";
  action = "review";
  expected_artifact = "report";
  opened_ts_utc = opened;
  deadline_utc = deadline;
  status = "open";
  closed_ts_utc = "";
  evidence_ptr = "";
  note = "";
}

hasty-validated :
    validate_entry ⦃clock = stroke_clock⦄ (row (strokes 0) (strokes 5))
    ≡ ok (row (strokes 0) (strokes 360000000))
unfolding validate_entry check_fields closed_check clamp_deadline nonblank is_space
hasty-validated =
    rw (strokes-nonblank 0, strokes-nonblank 5, count_strokes-strokes 0, count_strokes-strokes 5)
      refl

validated_deadline_is_bounded_example :
    (opened before deadline : ℕ) × (count_strokes (strokes 0) ≡ some opened)
    × (count_strokes (strokes 5) ≡ some before)
    × (count_strokes (strokes 360000000) ≡ some deadline)
    × (opened + 360000000 ≤ deadline)
    × (deadline ≤ opened + 14400000000)
    × (is_member statuses "open" ≡ true)
    × (row (strokes 0) (strokes 360000000)
        ≡ record (row (strokes 0) (strokes 5)) { deadline_utc = strokes 360000000 })
    × ((leb (opened + 360000000) before
          && leb before (opened + 14400000000)
          && not (deadline == before))
        ≡ false)
validated_deadline_is_bounded_example =
    validated_deadline_is_bounded ⦃clock = stroke_clock⦄ (row (strokes 0) (strokes 5))
      (row (strokes 0) (strokes 360000000)) count_strokes-strokes hasty-validated

-- A clock on which "o" is five microseconds before any other time.
instance abbrev two_times : Clock
two_times = record {
  parse_ts = λ s. if str_eq s "o" then some 0 else some 5;
  iso = λ n. "later";
  strip = λ s. s;
  lower = λ s. s;
  is_digits = λ s. false;
}

abbrev request_of : String → Request
request_of s = record {
  send_id = s;
  from_agent = "";
  owner_agent = "ccde";
  action = "";
  opened_ts_utc = "o";
  expected_artifact = "report";
  deadline = no_lifetime;
}

-- Every line is a request with itself as its id.
instance abbrev line_reader : Reader
line_reader = record { loads = λ s. request (request_of s); sha1 = λ s. s }

abbrev plain_host : Host
plain_host = record {
  kernel = unset;
  is_readable = true;
  is_writable = true;
  is_unicode_error = false;
}

-- The second line meets a ledger that cannot be read.
abbrev failing_second : ℕ → Host
failing_second zero = plain_host
failing_second (suc n) = record plain_host { is_readable = false }

abbrev from_start : RequestCursor
from_start = record { line = 0; anchor = "" }

-- A row that stands in the ledger before.
abbrev standing : Handoff
standing = row "o" "p"

drained_requests_are_open_example :
    let r = drain_open_requests failing_second true "a\nb\n" from_start (standing ∷ []) in
    let start = start_line from_start (request_lines "a\nb\n") in
    let lines = drop start (request_lines "a\nb\n") in
    (n : ℕ) × (escaped : Bool) × Grown (standing ∷ []) r.1
    × ArePassed failing_second (standing ∷ []) r.1 (take n lines)
    × IsStopped failing_second (standing ∷ []) n lines escaped
    × (is_some r.0 ≡ not escaped)
    × (escaped ≡ false → r.2.line ≡ start + n)
    × (escaped ≡ true → r.2 ≡ from_start)
unfolding is_plain is_one_line
drained_requests_are_open_example =
    drained_requests_are_open failing_second "a\nb\n" from_start (standing ∷ []) refl

abbrev opened_row : List Change
opened_row = adds plain_host (row "o" "p") ∷ []

-- Another row, another change of the first, and the removal of the other.
abbrev meanwhile : List Change
meanwhile =
    adds plain_host (record (row "o" "p") { handoff_id = "g" })
    ∷ swaps plain_host "h" "escalated" "closed" "now" "done"
    ∷ removes plain_host "g"
    ∷ []

abbrev opened_status : String
opened_status = "open"

open-differs : opened_status ≢ "escalated"
open-differs h = let e : str_eq "open" "escalated" ≡ true = (eq_iff "open" "escalated").1 h in cc

status_changes_once_example :
    let changed =
      (cas_status plain_host "h" "open" "escalated" "now" "" (after_changes opened_row [])).1 in
    IsUnique changed
    × ((cas_status plain_host "h" "open" "closed" "later" "" (after_changes meanwhile changed)).0
        ≢ ok true)
unfolding cas_status swap_status changed_row append_handoff add_row validate_entry check_fields
    closed_check nonblank is_space is_apart is_plain is_one_line
status_changes_once_example =
    status_changes_once opened_row meanwhile plain_host plain_host "h" "open" "escalated" "now" ""
      "closed" "later" "" open-differs refl refl
