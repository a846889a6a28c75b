-- ===== src/Inbox/Tests.antt =====
-- The theorems on durable_inbox.py at concrete queues.
use cc_suite.Prelude.{
  ◌≡◌, refl, true, false, none, some, [], ◌∷◌, ◌++◌, String, take, length, str_append, nonblank,
  is_space, is_truthy,
}
use cc_suite.Inbox.Lines.{complete_lines}
use cc_suite.Inbox.Drain.{
  missing, holds, Decoded, malformed, object, Libraries, Disk, Raises, drain_queue, is_desync,
  load_cursor, load_role_checkpoint, start_line, is_diverged, result_of, process, resync_line,
  resync_disk, save_role_checkpoint, save_cursor,
}
use cc_suite.Inbox.Delivery.{History, fresh, created, appended, drained, delivered_once}
use cc_suite.Inbox.Position.{events_of}
use cc_suite.Inbox.Resync.{desync_delivers_from_start}

abbrev decoded : String → Decoded String
decoded String.[] = malformed
decoded (String.◌∷◌ c s) = object (String.◌∷◌ c s)

-- Every line that is not empty is an object, whose values are its text, and the digest is the text.
instance abbrev plain : Libraries
plain = record {
  Value = String;
  Object = String;
  loads = decoded;
  get = λ o key. some o;
  is_true = λ v. true;
  text = λ s. s;
  empty_object = "";
  sha1 = λ s. s;
}

-- The first call of all raises.
abbrev raises_at_first : Raises
raises_at_first [] e = true
raises_at_first (x ∷ xs) e = false

abbrev raises_never : Raises
raises_never calls e = false

abbrev start : Disk
start = record { queue = none; own = missing; role = missing; is_writable = true }

abbrev filled : Disk
filled = record start { queue = some "a\nb" }

abbrev longer : Disk
longer = record start { queue = some (str_append "a\nb" "c\n") }

longer-History : History longer []
longer-History = appended "a\nb" "c\n" (created "a\nb" (fresh none) refl) refl

delivered_once_example :
    let held = drain_queue raises_at_first [] 7 "cos" longer in
    let r = drain_queue raises_never [] 7 "cos" held.1 in
    (r.0 ≡ some (result_of r.2))
    × ((([] ++ held.2.handled) ++ r.2.handled)
        ≡ events_of (take (load_cursor r.1.own).line (complete_lines held.1.queue)))
    × (r.2.held ≡ false
        → (([] ++ held.2.handled) ++ r.2.handled) ≡ events_of (complete_lines held.1.queue))
unfolding drain_queue resync_line is_desync complete_lines nonblank is_space start_line
    load_role_checkpoint is_diverged process save_role_checkpoint save_cursor resync_disk
    load_cursor
delivered_once_example =
    delivered_once (drained raises_at_first [] 7 "cos" longer-History refl) raises_never [] 7 "cos"
      refl

-- The cursor stands at line 5 of a queue of two lines.
abbrev truncated : Disk
truncated = record {
  queue = some "a\nb\n";
  own = holds (record { line = 5; pid = 7; role = "cos"; anchor = "e" });
  role = holds 9;
  is_writable = true;
}

desync_delivers_from_start_example :
    let r = drain_queue raises_never [] 7 "cos" truncated in
    (r.0 ≡ some (result_of r.2))
    × (r.2.handled ≡ events_of (take r.2.processed (complete_lines truncated.queue)))
    × ((load_cursor r.1.own).line ≡ r.2.processed)
    × (load_role_checkpoint r.1.role ≡ r.2.processed)
    × (r.2.held ≡ false → r.2.processed ≡ length (complete_lines truncated.queue))
unfolding is_desync start_line load_cursor complete_lines is_diverged nonblank is_space is_truthy
    drain_queue resync_line process
desync_delivers_from_start_example =
    desync_delivers_from_start raises_never [] 7 "cos" truncated refl refl refl

abbrev behind : Disk
behind = record {
  queue = some "a\nb\n";
  own = holds (record { line = 1; pid = 7; role = "cos"; anchor = "a" });
  role = holds 2;
  is_writable = true;
}
