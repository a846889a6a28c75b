-- ===== src/Lib.antt =====
-- The evaluation plane, the durable inbox, the action authority, the leases and the handoff ledger
-- of cc-suite.
--
-- The evaluation plane decides whether a release of an agent may go out. Graders judge the attempts at
-- a suite's cases; the verdicts are aggregated to blocking findings and counters; a qualification is
-- issued on the aggregate, with waivers and a baseline; and the qualification is stored as a row of
-- the kernel, whose life cycle has guards of its own. The durable inbox is the other end of the suite:
-- it hands the events of a role's queue to the agents that read it. The action authority decides, on
-- signed evidence, whether an agent may take an action at all. Effect control wraps the external
-- effects of a target while it is evaluated and records each attempt; the ledger's grade becomes an
-- attempt of a case. The leases of the kernel say which owner may work on a resource, and their
-- fencing tokens which writer comes too late. The handoff ledger holds what one agent owes another,
-- with a deadline that a sweep enforces.
--
-- Which file models which part:
--   Domain            fleet_kernel/eval_plane/domain.py: the enumerations and both transition tables.
--     Runs            EvalRun: require_tenant, assert_run_transition, transition.
--     Attempts        EvalCaseAttempt.validate and assert_no_discarded_failures.
--     Grades          GraderResult.validate, the row of a verdict.
--     Verdicts        EvalQualification, its guard and transition.
--     VerdictLifecycle  sequences of requested changes of that row.
--     Waivers         EvalWaiver.validate and SuitePolicy.
--   Graders           fleet_kernel/eval_plane/graders.py: the rules' names, requirement_ref.
--     Verdict         GraderResult.__post_init__.
--     Bridge          to_domain_result.
--     Runner          run_grader; RunnerTotality has what it returns.
--     Cases           AttemptPolicy, CaseAttemptResult, CaseResult; CaseStates has their states.
--     Reasons         the reasons of blocking findings and their texts.
--     Aggregate       the rules R1 to R7 of aggregate, and the counters.
--     Outcome         _metrics, AggregateOutcome, aggregate.
--     Counters, Precedence, Green  what the findings say of the cases.
--   Qualification     fleet_kernel/eval_plane/qualification.py.
--     Waivers         apply_waivers; Cover has its specification.
--     Issue           compare_to_baseline, _derive_state, issue_qualification and
--                     apply_waiver_to_rejected_qualification; Issued has what they issue.
--     Persist         to_domain_qualification; Storable has what it stores.
--     Staleness       evaluate_staleness.
--   Inbox             mcp_servers/channel_relay/durable_inbox.py.
--     Lines           _complete_lines, read_from_cursor.
--     Drain           the cursor files and drain_queue.
--     Position        one drain from where a cursor stands; Delivery has histories of appends and
--                     drains, Resync has truncated queues.
--   Authority         fleet_kernel/m8/authority.py.
--     Types, Trust    requests and receipts, EvidenceTrust.verified_receipts.
--     Matrix          _CHECKS and _MATRIX.
--     Gate, Require   evaluate_action and require_action.
--   Effects           fleet_kernel/eval_plane/effect_control.py.
--     Redact          redact and _redact_text; Clean has what they let through.
--     Ledger          EffectLedger.record and grade_effect_attempts.
--     Calls           EffectInterceptor.__init__, the wrapper, _dispatch and the default provider of
--                     simulated results; Evidence and Graded have the ledger against the calls.
--     Install         install, _rebind_aliases, _restore and uninstall; Restore, Evolution and
--                     Enforced have what they bind.
--     Attempt         attempt_from_effect_ledger of graders.py.
--   Lease             fleet_kernel/m2/lease.py.
--     Table           acquire, renew, release and fenced_write.
--     Tokens, Exclusion, Takeover  sequences of calls of any callers.
--   Handoff           scripts/handoff_ledger.py.
--     Entry           validate_entry, new_handoff and the predicates on owners; Deadlines has what a
--                     validated row is.
--     Rows            append_handoff, open_from_send, cas_status, remove_handoff and the queries of the
--                     sweep; Opened, Once and Changes have what they leave in the ledger.
--     Requests        drain_open_requests; Passed has what becomes of a request.
--   Prelude           shared lists, texts, results and tests.
--
-- How state and operations correspond to the code. A dataclass is a record and an enum a data type. A
-- record leaves out the fields that no modelled operation reads or changes (payloads, free references
-- and creation times), and a constructor's check that its only modelled caller has just made. Code
-- that raises returns `Result`, with a constructor of the fault's type for each kind of message. A
-- method that assigns to `self` takes the record and returns the new one, and an exception leaves it
-- as it was where the operation does not return it beside its fault. A `datetime` is its instant and
-- whether it has a time zone; two that differ in that raise when they are compared. The reasons of
-- rejected waivers are data with the values that they print. The inbox's files are one record, `Disk`,
-- which every read and write goes through; a write to a directory that cannot be written does nothing,
-- as the code's `except` does. A grader is what reading each of its attributes does, and an exception
-- is what rendering it as a text does.
--
-- All recursion is on lists, texts, values and exceptions, so there is no fuel; redact counts down the
-- seven levels that its depth limit allows. Counts, cursor lines, instants and lengths of time are
-- natural numbers: Python's integers have no bound, and a cursor file with a negative line, which the
-- code never writes, is outside the model.
--
-- Parameters: Python's floats and its printing of integers, floats and texts (Prelude/Floats), the
-- sha-256 digests of canonical JSON and of a receipt (Qualification/Issue, `Hashing`), the JSON
-- decoder and sha-1 of the inbox (Inbox/Drain, `Libraries`), and the digests, signatures and ISO times
-- of the authority (Authority/Types, `Libraries`). No law is asked of any of these. Nor is one asked
-- of the regular expressions, digests and printed values of redaction (Effects/Redact, `Patterns`), of
-- the digest of a ledger's entry (Effects/Ledger, `Digests`), or of the modules of a process and which
-- of their bindings can be set (Effects/Install, `Process`). The inbox's callback is any rule that
-- says which call raises, given the calls before it.
--
-- Errors of code outside the repository. A lock, a read or a write of the handoff ledger may fail with
-- a UnicodeError, which its drain passes over as bad data, or with another error, which it waits out.
-- `json.loads` gives a JSONDecodeError, which the code catches, or another error, which leaves a drain
-- with its cursor unsaved; `float` of a lifetime may overflow, with the same effect. `str` of a
-- mapping's key, the reading of a container, the clock, the JSON encoder and a registered fixture may
-- raise, and then a wrapped call raises, with or without an entry in the ledger. Elsewhere only
-- exceptions of class Exception are modelled, not SystemExit or KeyboardInterrupt.
--
-- The bindings of a process are a function from an owner and a name to an object, where a wrapper is
-- known by its chokepoint and its original. The table of leases is a function from a tenant and a
-- resource to a row, so that its unique constraint holds by the type.
--
-- The handoff ledger is the list of the rows that a read of its file gives, each field of a row a
-- text; a row with a line separator in a text is not among them after it is written. What the machine
-- does to an operation on it (a lock, a read or a write that fails, the kernel's pointer and its
-- mirror) is a record, `Host`, of which each line of a drain may meet another. ISO times, strip, lower
-- and isdigit are parameters (Handoff/Entry, `Clock`), as are its JSON decoder and sha-1
-- (Handoff/Requests, `Reader`); one theorem asks of the clock that it reads back the times that it
-- prints.
--
-- Not modelled: a queue or a log of requests that is no UTF-8 text (its reading raises before anything
-- else is done), the pieces of a ledger row with a line separator that are JSON by themselves, rows of
-- the handoff ledger with missing fields or fields of another type, the kernel projection that its
-- readers may use, attributes that an owner inherits or computes, providers of simulated results other
-- than the default one and the labels in what it returns, the JSON views (to_dict, to_row, from_row,
-- receipt_payload), the Grader class hierarchy, the removal of dead cursor files and the cursor file
-- names, a crash of the process in the middle of a drain, several consumers of one queue at a time,
-- the signing of receipts, the comparison of the authority's two constant sets with their pinned
-- copies (they are equal in the source), and the rest of the repository (SQL, TypeScript, database
-- clients, cryptography, process supervision).
pub mod Prelude
pub mod Domain
pub mod Graders
pub mod Qualification
pub mod Inbox
pub mod Authority
pub mod Effects
pub mod Lease
pub mod Handoff
