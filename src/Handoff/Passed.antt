-- ===== src/Handoff/Passed.antt =====
-- What becomes of each request that the drain passes over (handoff_ledger.py, lines 469-558).
use cc_suite.Prelude.{
  if◌then◌else◌, ℕ, zero, subst, is_some, suc, ◌+◌, ◌≡◌, refl, ap, ◌∙◌, Bool, true, false, not,
  Option, none, some, List, [], ◌∷◌, String, str_append, any, take, drop, Result, ok, err, ◌⊎◌, inl,
  inr, Bool-cases,
}
use cc_suite.Handoff.Entry.{Handoff, Clock}
use cc_suite.Handoff.Rows.{Fault, transient, Host, Rows, has_id, is_plain}
use cc_suite.Handoff.Requests.{
  Request, Reader, Parsed, malformed, not_object, request, Drained, RequestCursor, open_request,
  by_result, by_line, drain_lines, drain_open_requests, request_lines, start_line, is_complete,
  is_transient, or_text, seconds_of, by_lifetime, raises_other, ended, skip,
}
use cc_suite.Handoff.Opened.{
  ArePlain, is_open, Grown, Grown-refl, Grown-trans, Grown-any, Opens, open_from_send-Opens,
}

abbrev id_of : Request → String
id_of r = str_append "send-" r.send_id

-- What the line holds is no request with an id and a time.
abbrev is_unusable : Parsed → Bool
is_unusable malformed = true
is_unusable not_object = true
is_unusable raises_other = false
is_unusable (request r) = not (is_complete r)

module _ ⦃clock : Clock⦄ ⦃reader : Reader⦄ where
  abbrev opened_rows : Host → Request → Option ℕ → Rows → Rows
  opened_rows host r none rows = rows
  opened_rows host r (some seconds) rows = (open_request host r seconds rows).1

  -- The rows after a line that was passed over on a host.
  abbrev rows_after : Host → Parsed → Rows → Rows
  rows_after host (request r) rows =
      if is_complete r then opened_rows host r (seconds_of r.deadline) rows else rows
  rows_after host x rows = rows

  -- What becomes of a request with an id and a time that meets these rows on this host and is passed
  -- over: a row with its id is among the final rows, or opening it raised a LedgerError or a
  -- ValueError, or the row that was opened has a line separator in a text.
  pub record IsAnswered (host : Host) (rows final : Rows) (r : Request) : Type 0 where
    pub seconds : ℕ
    pub lifetime : seconds_of r.deadline ≡ some seconds
    pub answer :
        (any (has_id (id_of r)) final ≡ true)
        ⊎ ((fault : Fault) × ((open_request host r seconds rows).0 ≡ err fault)
            × (is_transient fault ≡ false))
        ⊎ ((e : Handoff) × ((open_request host r seconds rows).0 ≡ ok (some e))
            × (is_plain e ≡ false))

  -- A line that may be passed over: it is no request, or its request is answered.
  unfoldable pub IsPassed : Host → Rows → Rows → Parsed → Type 0
  IsPassed host rows final x =
      (is_unusable x ≡ true) ⊎ ((r : Request) × (x ≡ request r) × IsAnswered host rows final r)

  -- Each line may be passed over on its own host, with the rows that those before it left.
  abbrev pub ArePassed : (ℕ → Host) → Rows → Rows → List String → Type 0
  ArePassed hosts rows final [] = Unit
  ArePassed hosts rows final (line ∷ lines) =
      IsPassed (hosts 0) rows final (reader.loads line)
      × ArePassed (λ n. hosts (suc n)) (rows_after (hosts 0) (reader.loads line) rows) final lines

  -- The line holds the drain: its request has an id and a time, and opening it among these rows on this
  -- host raised what is no LedgerError and no ValueError.
  pub record IsHeld (host : Host) (rows : Rows) (x : Parsed) : Type 0 where
    pub r : Request
    pub seconds : ℕ
    pub parsed : x ≡ request r
    pub complete : is_complete r ≡ true
    pub lifetime : seconds_of r.deadline ≡ some seconds
    pub raised : (open_request host r seconds rows).0 ≡ err transient

  -- The line makes the drain raise: the JSON decoder raises another error than JSONDecodeError, or its
  -- request has a lifetime on which `float` raises an OverflowError.
  abbrev Escapes : Parsed → Type 0
  Escapes x =
      (x ≡ raises_other)
      ⊎ ((r : Request) × (x ≡ request r) × (is_complete r ≡ true) × (seconds_of r.deadline ≡ none))

  -- Where the drain stops after so many lines, and whether by an error.
  unfoldable pub IsStopped : (ℕ → Host) → Rows → ℕ → List String → Bool → Type 0
  IsStopped hosts rows zero [] escaped = escaped ≡ false
  IsStopped hosts rows zero (line ∷ lines) escaped =
      ((escaped ≡ false) × IsHeld (hosts 0) rows (reader.loads line))
      ⊎ ((escaped ≡ true) × Escapes (reader.loads line))
  IsStopped hosts rows (suc n) [] escaped = ⊥
  IsStopped hosts rows (suc n) (line ∷ lines) escaped =
      IsStopped (λ m. hosts (suc m)) (rows_after (hosts 0) (reader.loads line) rows) n lines escaped

  record Run (hosts : ℕ → Host) (rows : Rows) (lines : List String) (d : Drained) : Type 0 where
    grown : Grown rows d.rows
    passed : ArePassed hosts rows d.rows (take d.processed lines)
    stopped : IsStopped hosts rows d.processed lines d.escaped

  open_request-Opens :
      (host : Host) (r : Request) (seconds : ℕ) (rows : Rows)
      → ArePlain rows
      → Opens (id_of r) rows (open_request host r seconds rows)
  unfolding open_request
  open_request-Opens host r seconds rows p =
      open_from_send-Opens host r.send_id (or_text r.from_agent "unknown")
        (or_text r.owner_agent "unknown") (or_text r.action "task handoff") r.opened_ts_utc
        r.expected_artifact seconds rows p

  is_transient-eq : (fault : Fault) → is_transient fault ≡ true → fault ≡ transient
  is_transient-eq transient h = refl
  is_transient-eq (Fault.invalid f) h = cc
  is_transient-eq Fault.already_exists h = cc
  is_transient-eq Fault.kernel_misconfigured h = cc
  is_transient-eq Fault.unmirrored h = cc
  is_transient-eq Fault.not_text h = cc

  -- One more line is passed over, before a run of the others on the rows that it left.
  passed-Run :
      (hosts : ℕ → Host) (rows after : Rows) (line : String) (lines : List String) (d : Drained)
      (n : ℕ)
      → rows_after (hosts 0) (reader.loads line) rows ≡ after
      → Grown rows after
      → IsPassed (hosts 0) rows d.rows (reader.loads line)
      → Run (λ m. hosts (suc m)) after lines d
      → Run hosts rows (line ∷ lines) (record d { opened = n; processed = suc d.processed })
  unfolding IsStopped
  passed-Run hosts rows after line lines d n e g x ih = record {
    grown = Grown-trans g ih.grown;
    passed = (x, rw e ih.passed);
    stopped = rw e ih.stopped;
  }

  stopped-Run :
      (hosts : ℕ → Host) (rows after : Rows) (line : String) (lines : List String) (escaped : Bool)
      → Grown rows after
      → ((escaped ≡ false) × IsHeld (hosts 0) rows (reader.loads line))
        ⊎ ((escaped ≡ true) × Escapes (reader.loads line))
      → Run hosts rows (line ∷ lines) (ended escaped after)
  unfolding IsStopped
  stopped-Run hosts rows after line lines escaped g h = record {
    grown = g;
    passed = tt;
    stopped = h;
  }

  -- A request that is opened, now or before, is answered.
  opened-IsAnswered :
      (host : Host) (rows after final : Rows) (r : Request) (seconds : ℕ)
      (result : Result Fault (Option Handoff))
      → seconds_of r.deadline ≡ some seconds
      → (open_request host r seconds rows).0 ≡ result
      → Opens (id_of r) rows (result, after)
      → is_open result ≡ true
      → Grown after final
      → IsAnswered host rows final r
  opened-IsAnswered host rows after final r seconds result e k o h g = record {
    seconds = seconds;
    lifetime = e;
    answer = elim (o.stands h) [
      | inl x ↦ inl (Grown-any (has_id (id_of r)) g x)
      | inr (row, same, x) ↦ inr (inr (row, k ∙ same, x))
    ];
  }

  result-Run :
      (hosts : ℕ → Host) (r : Request) (seconds : ℕ) (rows : Rows) (line : String)
      (lines : List String) (next : Rows → Drained) (result : Result Fault (Option Handoff))
      (after : Rows)
      → reader.loads line ≡ request r
      → is_complete r ≡ true
      → seconds_of r.deadline ≡ some seconds
      → rows_after (hosts 0) (reader.loads line) rows ≡ after
      → (open_request (hosts 0) r seconds rows).0 ≡ result
      → Opens (id_of r) rows (result, after)
      → Run (λ n. hosts (suc n)) after lines (next after)
      → Run hosts rows (line ∷ lines) (by_result (result, after) rows next)
  unfolding IsPassed
  result-Run hosts r seconds rows line lines next (ok none) after e c s a k o ih =
      passed-Run hosts rows after line lines (next after) _ a o.grown
        (inr (
          r,
          e,
          opened-IsAnswered (hosts 0) rows after (next after).rows r seconds (ok none) s k o refl
              ih.grown,
        ))
        ih
  result-Run hosts r seconds rows line lines next (ok (some row)) after e c s a k o ih =
      passed-Run hosts rows after line lines (next after) _ a o.grown
        (inr (
          r,
          e,
          opened-IsAnswered (hosts 0) rows after (next after).rows r seconds (ok (some row)) s k o
              refl ih.grown,
        ))
        ih
  result-Run hosts r seconds rows line lines next (err fault) after e c s a k o ih =
      elim (Bool-cases (is_transient fault)) [
        | inl t ↦ rw t (
            stopped-Run hosts rows after line lines false o.grown
              (inl (refl, held (k ∙ ap err (is_transient-eq fault t)))))
        | inr t ↦ rw t (
            passed-Run hosts rows after line lines (next after) _ a o.grown (inr (r, e, refused t))
              ih)
      ]
    where
      held :
          (open_request (hosts 0) r seconds rows).0 ≡ err transient
          → IsHeld (hosts 0) rows (reader.loads line)
      held h = record {
        r = r;
        seconds = seconds;
        parsed = e;
        complete = c;
        lifetime = s;
        raised = h;
      }

      refused : is_transient fault ≡ false → IsAnswered (hosts 0) rows (next after).rows r
      refused t = record { seconds = seconds; lifetime = s; answer = inr (inl (fault, k, t)) }

  lifetime-Run :
      (hosts : ℕ → Host) (r : Request) (o : Option ℕ) (rows : Rows) (line : String)
      (lines : List String) (next : Rows → Drained)
      → ArePlain rows
      → reader.loads line ≡ request r
      → is_complete r ≡ true
      → seconds_of r.deadline ≡ o
      → ((after : Rows) → ArePlain after → Run (λ n. hosts (suc n)) after lines (next after))
      → Run hosts rows (line ∷ lines) (by_lifetime (hosts 0) r o rows next)
  lifetime-Run hosts r none rows line lines next p e c s ih =
      stopped-Run hosts rows rows line lines true (Grown-refl rows) (inr (refl, inr (r, e, c, s)))
  lifetime-Run hosts r (some seconds) rows line lines next p e c s ih =
      let o = open_request-Opens (hosts 0) r seconds rows p in
      let after = (open_request (hosts 0) r seconds rows).1 in
      result-Run hosts r seconds rows line lines next (open_request (hosts 0) r seconds rows).0
        after e c s (rw e (rw (c, s) refl)) refl o (ih after o.plain)

  skipped-Run :
      (hosts : ℕ → Host) (rows : Rows) (line : String) (lines : List String) (next : Rows → Drained)
      → is_unusable (reader.loads line) ≡ true
      → rows_after (hosts 0) (reader.loads line) rows ≡ rows
      → Run (λ n. hosts (suc n)) rows lines (next rows)
      → Run hosts rows (line ∷ lines) (skip (next rows))
  unfolding IsPassed
  skipped-Run hosts rows line lines next h a ih =
      passed-Run hosts rows rows line lines (next rows) _ a (Grown-refl rows) (inl h) ih

  line-Run :
      (hosts : ℕ → Host) (x : Parsed) (rows : Rows) (line : String) (lines : List String)
      (next : Rows → Drained)
      → ArePlain rows
      → reader.loads line ≡ x
      → ((after : Rows) → ArePlain after → Run (λ n. hosts (suc n)) after lines (next after))
      → Run hosts rows (line ∷ lines) (by_line (hosts 0) x rows next)
  line-Run hosts malformed rows line lines next p e ih =
      skipped-Run hosts rows line lines next (ap is_unusable e) (rw e refl) (ih rows p)
  line-Run hosts not_object rows line lines next p e ih =
      skipped-Run hosts rows line lines next (ap is_unusable e) (rw e refl) (ih rows p)
  line-Run hosts raises_other rows line lines next p e ih =
      stopped-Run hosts rows rows line lines true (Grown-refl rows) (inr (refl, inl e))
  line-Run hosts (request r) rows line lines next p e ih = elim (Bool-cases (is_complete r)) [
    | inl c ↦ rw c (lifetime-Run hosts r (seconds_of r.deadline) rows line lines next p e c refl ih)
    | inr c ↦ rw c (
        skipped-Run hosts rows line lines next (ap is_unusable e ∙ ap not c) (rw e (rw c refl))
          (ih rows p))
  ]

  drain_lines-Run :
      (hosts : ℕ → Host) (lines : List String) (rows : Rows)
      → ArePlain rows
      → Run hosts rows lines (drain_lines hosts lines rows)
  unfolding drain_lines IsStopped
  drain_lines-Run hosts [] rows p = record { grown = Grown-refl rows; passed = tt; stopped = refl }
  drain_lines-Run hosts (line ∷ lines) rows p =
      line-Run hosts (reader.loads line) rows line lines
        (λ after. drain_lines (λ n. hosts (suc n)) lines after) p refl
        (λ after q. drain_lines-Run (λ n. hosts (suc n)) lines after q)

  -- For any log, cursor and hosts, of which each line meets its own, a cursor that can be written and a
  -- ledger whose rows have no line separator in a text: the drain passes over some lines from where it
  -- starts, and keeps every row of the ledger. Each line that it passes over is no request with an id
  -- and a time, or a row with its id is in the ledger at the end, or opening it among the rows that the
  -- lines before it left raised a LedgerError or a ValueError on its host, or the row that it opened has
  -- a line separator in a text. The drain passes over all of the lines, or stops at a request whose opening
  -- raised another exception, and then it returns and the cursor is behind the lines that it passed
  -- over; or it stops at a line on which the JSON decoder raises another error than JSONDecodeError or
  -- whose lifetime overflows, and then it raises and the cursor is as it was.
  pub drained_requests_are_open :
      (hosts : ℕ → Host) (raw : String) (cursor : RequestCursor) (rows : Rows)
      → ArePlain rows
      → let r = drain_open_requests hosts true raw cursor rows in
        let start = start_line cursor (request_lines raw) in
        let lines = drop start (request_lines raw) in
        (n : ℕ) × (escaped : Bool) × Grown rows r.1
        × ArePassed hosts rows r.1 (take n lines)
        × IsStopped hosts rows n lines escaped
        × (is_some r.0 ≡ not escaped)
        × (escaped ≡ false → r.2.line ≡ start + n)
        × (escaped ≡ true → r.2 ≡ cursor)
  unfolding drain_open_requests
  drained_requests_are_open hosts raw cursor rows p =
      let start = start_line cursor (request_lines raw) in
      let d = drain_lines hosts (drop start (request_lines raw)) rows in
      let run = drain_lines-Run hosts (drop start (request_lines raw)) rows p in
      elim (Bool-cases d.escaped) [
        | inl e ↦ rw e (
          d.processed,
          true,
          run.grown,
          run.passed,
          subst (IsStopped hosts rows d.processed (drop start (request_lines raw))) e run.stopped,
          refl,
          λ h. cc,
          λ h. refl,
        )
        | inr e ↦ rw e (
          d.processed,
          false,
          run.grown,
          run.passed,
          subst (IsStopped hosts rows d.processed (drop start (request_lines raw))) e run.stopped,
          refl,
          λ h. refl,
          λ h. cc,
        )
      ]
