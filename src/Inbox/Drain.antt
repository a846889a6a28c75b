-- ===== src/Inbox/Drain.antt =====
-- `drain_queue` and the files it reads and writes (durable_inbox.py, lines 36-78, 97-100 and 167-318).
-- The JSON decoder and sha-1 are parameters. The callback is any rule for which call raises, given the
-- calls before it. A cursor's numbers are not negative.
use cc_suite.Prelude.{
  ℕ, zero, suc, ◌+◌, Bool, true, false, not, ◌&&◌, ◌||◌, Option, none, some, List, [], ◌∷◌, ◌++◌,
  String, str_eq, is_truthy, ltb, if◌then◌else◌, length, drop, get_elem?,
}
use cc_suite.Inbox.Lines.{complete_lines}

pub data File (A : Type 0) : Type 0 where
  missing corrupt : File A
  holds : A → File A

pub record Cursor : Type 0 where
  pub line : ℕ
  pub pid : ℕ
  pub role : String
  pub anchor : String

pub record DrainResult : Type 0 where
  pub processed : ℕ
  pub held : Bool

-- What `json.loads` makes of a line: a JSONDecodeError, a value that is no object, an object, or an
-- error of another class, such as a ValueError on an integer with too many digits.
pub data Decoded (A : Type 0) : Type 0 where
  malformed not_object raises_other : Decoded A
  object : A → Decoded A

pub record Libraries : Type 1 where
  pub Value : Type 0
  pub Object : Type 0
  pub loads : String → Decoded Object
  -- `event.get(key)`
  pub get : Object → String → Option Value
  -- `bool(value)`
  pub is_true : Value → Bool
  pub text : String → Value
  pub empty_object : Value
  -- the first 16 digits of the sha-1 of a line
  pub sha1 : String → String

-- The two cursor files and the queue, with whether the directory can be written. The queue is the text
-- that `read_text` gives, decoded and with its line ends translated.
pub record Disk : Type 0 where
  pub queue : Option String
  pub own : File Cursor
  pub role : File ℕ
  pub is_writable : Bool

-- `load_cursor`
unfoldable pub load_cursor : File Cursor → Cursor
load_cursor (holds c) = c
load_cursor _ = record { line = 0; pid = 0; role = ""; anchor = "" }

unfoldable pub load_role_checkpoint : File ℕ → ℕ
load_role_checkpoint (holds n) = n
load_role_checkpoint _ = 0

unfoldable pub save_cursor : ℕ → ℕ → String → String → Disk → Disk
save_cursor line pid role anchor d =
    let written : Cursor = record { line = line; pid = pid; role = role; anchor = anchor } in
    if d.is_writable then record d { own = holds written } else d

unfoldable pub save_role_checkpoint : ℕ → Bool → Disk → Disk
save_role_checkpoint line force d =
    if (force || ltb (load_role_checkpoint d.role) line) && d.is_writable
    then record d { role = holds line }
    else d

-- The seed: the own cursor, else the role's checkpoint, else the start of the queue.
unfoldable pub start_line : File Cursor → File ℕ → ℕ
start_line missing role = load_role_checkpoint role
start_line own role = (load_cursor own).line

module _ ⦃lib : Libraries⦄ where
  pub record Event : Type 0 where
    pub event_type : lib.Value
    pub content : lib.Value
    pub meta : lib.Value

  -- `event.get(key) or default`
  abbrev or_default : Option lib.Value → lib.Value → lib.Value
  or_default none default = default
  or_default (some v) default = if lib.is_true v then v else default

  abbrev pub event_of : lib.Object → Event
  event_of o = record {
    event_type = or_default (lib.get o "event_type") (lib.text "slack_message");
    content = or_default (lib.get o "content") (lib.text "");
    meta = or_default (lib.get o "meta") lib.empty_object;
  }

  -- Which call of the callback raises, given the calls before it.
  abbrev pub Raises : Type 0
  Raises = List Event → Event → Bool

  -- The lines the loop passed, whether a callback raised, whether an error left the loop, the calls it
  -- made and those of them that returned.
  pub record Outcome : Type 0 where
    pub processed : ℕ
    pub held : Bool
    pub escaped : Bool
    pub calls : List Event
    pub handled : List Event

  abbrev pub one_more : Outcome → Outcome
  one_more o = record o { processed = suc o.processed }

  abbrev pub handles : Event → Outcome → Outcome
  handles e o = record o { processed = suc o.processed; handled = e ∷ o.handled }

  -- The loop at its end, or before its first line, with the calls made so far.
  abbrev pub stopped : List Event → Outcome
  stopped calls = record {
    processed = 0;
    held = false;
    escaped = false;
    calls = calls;
    handled = [];
  }

  -- What is not a JSON object is passed over, an event is handed to the callback. Only a
  -- JSONDecodeError is caught.
  abbrev pub by_kind : Decoded lib.Object → Outcome → Outcome → (Event → Outcome) → Outcome
  by_kind malformed skipped left call = one_more skipped
  by_kind not_object skipped left call = one_more skipped
  by_kind raises_other skipped left call = left
  by_kind (object o) skipped left call = call (event_of o)

  unfoldable pub process : Raises → List Event → List String → Outcome
  process raises calls [] = stopped calls
  process raises calls (line ∷ rest) =
      let left = record (stopped calls) { escaped = true } in
      by_kind (lib.loads line) (process raises calls rest) left (λ e.
        let made = calls ++ (e ∷ []) in
        let after = process raises made rest in
        if raises calls e then record (stopped made) { held = true } else handles e after)

  -- `_anchor(all_lines[n - 1])`, where there is such a line.
  abbrev or_blank : Option String → String
  or_blank none = ""
  or_blank (some line) = lib.sha1 line

  unfoldable pub anchor_at : List String → ℕ → String
  anchor_at lines zero = ""
  anchor_at lines (suc n) = or_blank (get_elem? lines n)

  -- The content anchor does not match the line before the cursor.
  abbrev mismatch : String → Option String → Bool
  mismatch anchor none = true
  mismatch anchor (some prev) = not (str_eq (lib.sha1 prev) anchor)

  abbrev diverged_at : String → ℕ → List String → Bool
  diverged_at anchor zero lines = false
  diverged_at anchor (suc n) lines = is_truthy anchor && mismatch anchor (get_elem? lines n)

  unfoldable pub is_diverged : File Cursor → List String → Bool
  is_diverged missing lines = false
  is_diverged own lines = diverged_at (load_cursor own).anchor (load_cursor own).line lines

  unfoldable pub is_desync : Disk → List String → Bool
  is_desync d lines =
      let start = start_line d.own d.role in ltb (length lines) start || is_diverged d.own lines

  -- Where the drain starts, and the disk after a resync.
  unfoldable pub resync_line : Disk → List String → ℕ
  resync_line d lines = if is_desync d lines then 0 else start_line d.own d.role

  unfoldable pub resync_disk : Disk → List String → Disk
  resync_disk d lines = if is_desync d lines then save_role_checkpoint 0 true d else d

  abbrev pub is_empty_list : List String → Bool
  is_empty_list [] = true
  is_empty_list (x ∷ xs) = false

  -- What a drain returns, nothing where an error left it, with the disk and its loop's outcome.
  abbrev pub Drained : Type 0
  Drained = Option DrainResult × Disk × Outcome

  abbrev pub result_of : Outcome → DrainResult
  result_of o = record { processed = o.processed; held = o.held }

  -- The cursor and the role's checkpoint move to a line.
  abbrev pub save_both : ℕ → String → List String → ℕ → Disk → Disk
  save_both pid role lines line d =
      save_role_checkpoint line false (save_cursor line pid role (anchor_at lines line) d)

  unfoldable pub drain_queue : Raises → List Event → ℕ → String → Disk → Drained
  drain_queue raises calls pid role d =
      let lines = complete_lines d.queue in
      let start = resync_line d lines in
      let disk = resync_disk d lines in
      let new_lines = drop start lines in
      let o = process raises calls new_lines in
      if is_empty_list new_lines
      then (some (result_of (stopped calls)), save_both pid role lines start disk, stopped calls)
      else if o.escaped
      then (none, disk, o)
      else (some (result_of o), save_both pid role lines (start + o.processed) disk, o)
