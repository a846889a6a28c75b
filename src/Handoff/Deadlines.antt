-- ===== src/Handoff/Deadlines.antt =====
-- The deadline of a validated row (handoff_ledger.py, lines 136-203).
use cc_suite.Prelude.{
  ℕ, ◌+◌, ◌-◌, ◌≤◌, ◌<◌, ◌≡◌, refl, Bool, true, false, not, ◌&&◌, Option, none, some, nonblank, any,
  leb, ◌==◌, Result, ok, ◌>>=◌, raise_if-ok, >>-ok, arith,
}
use cc_suite.Authority.Matrix.{starts_with}
use cc_suite.Handoff.Entry.{
  Handoff, Clock, DataFault, unknown_status, ephemeral_evidence, bad_timestamp, deadline_not_after,
  deadline_min, deadline_max, clamp_deadline, is_member, statuses, ephemeral_prefixes,
  non_empty_fields, check_fields, or_raise, closed_check, validate_entry,
}

clamp_deadline-bounds :
    (n : ℕ) → (deadline_min ≤ clamp_deadline n) × (clamp_deadline n ≤ deadline_max)
unfolding clamp_deadline
clamp_deadline-bounds n = ground arith

clamp_deadline-within : (n : ℕ) → deadline_min ≤ n → n ≤ deadline_max → clamp_deadline n ≡ n
unfolding clamp_deadline
clamp_deadline-within n h k = ground arith

-- A deadline within the bounds is kept.
unchanged :
    (opened deadline : ℕ)
    → opened < deadline
    → (leb (opened + 360000000) deadline
        && leb deadline (opened + 14400000000)
        && not (opened + clamp_deadline (deadline - opened) == deadline))
      ≡ false
unfolding clamp_deadline
unchanged opened deadline l = ground arith

module _ ⦃clock : Clock⦄ where
  pub or_raise-ok {ℓ κ} :
      {A : Type ℓ} {B : Type κ} (o : Option A) (fault : DataFault) (f : A → Result DataFault B)
      {b : B}
      → (or_raise o fault >>= f) ≡ ok b
      → (a : A) × (o ≡ some a) × (f a ≡ ok b)
  or_raise-ok none fault f h = cc
  or_raise-ok (some a) fault f h = (a, refl, h)

  -- What `validate_entry` found, when it returned.
  pub record Validated (e v : Handoff) : Type 0 where
    pub opened : ℕ
    pub deadline : ℕ
    pub fields : check_fields (non_empty_fields e) ≡ ok tt
    pub status : is_member statuses e.status ≡ true
    pub evidence :
        (nonblank e.evidence_ptr && any (λ p. starts_with e.evidence_ptr p) ephemeral_prefixes)
        ≡ false
    pub reads_opened : clock.parse_ts e.opened_ts_utc ≡ some opened
    pub reads_deadline : clock.parse_ts e.deadline_utc ≡ some deadline
    pub ordered : opened < deadline
    pub closed : closed_check e ≡ ok tt
    pub result :
        v ≡ record e { deadline_utc = clock.iso (opened + clamp_deadline (deadline - opened)) }

  pub validate_entry-Validated : (e v : Handoff) → validate_entry e ≡ ok v → Validated e v
  unfolding validate_entry
  validate_entry-Validated e v h =
      let (fields, h1) = >>-ok (check_fields (non_empty_fields e)) _ h in
      let (s, h2) = raise_if-ok (not (is_member statuses e.status)) unknown_status _ h1 in
      let (evidence, h3) =
        raise_if-ok
          (nonblank e.evidence_ptr && any (λ p. starts_with e.evidence_ptr p) ephemeral_prefixes)
          ephemeral_evidence _ h2 in
      let (opened, reads_opened, h4) =
        or_raise-ok (clock.parse_ts e.opened_ts_utc) bad_timestamp _ h3 in
      let (deadline, reads_deadline, h5) =
        or_raise-ok (clock.parse_ts e.deadline_utc) bad_timestamp _ h4 in
      let (l, h6) = raise_if-ok (leb deadline opened) deadline_not_after _ h5 in
      let (closed, h7) = >>-ok (closed_check e) _ h6 in
      record {
        opened = opened;
        deadline = deadline;
        fields = fields;
        status = not_false (is_member statuses e.status) s;
        evidence = evidence;
        reads_opened = reads_opened;
        reads_deadline = reads_deadline;
        ordered = ground arith;
        closed = closed;
        result = cc;
      }
    where
      not_false : (b : Bool) → not b ≡ false → b ≡ true
      not_false true h = refl
      not_false false h = cc

  -- For a clock that reads back what it prints: when `validate_entry` returns a row, both times of that
  -- row can be read, its deadline is at least 360 seconds (two ticks of the sweep) and at most four hours
  -- after its opening, its status is one of the three, and only the deadline of the entry may have
  -- changed. A deadline that was within these bounds is the same instant as before.
  pub validated_deadline_is_bounded :
      (e v : Handoff)
      → ((n : ℕ) → clock.parse_ts (clock.iso n) ≡ some n)
      → validate_entry e ≡ ok v
      → (opened before deadline : ℕ) × (clock.parse_ts v.opened_ts_utc ≡ some opened)
        × (clock.parse_ts e.deadline_utc ≡ some before)
        × (clock.parse_ts v.deadline_utc ≡ some deadline)
        × (opened + 360000000 ≤ deadline)
        × (deadline ≤ opened + 14400000000)
        × (is_member statuses v.status ≡ true)
        × (v ≡ record e { deadline_utc = v.deadline_utc })
        × ((leb (opened + 360000000) before
              && leb before (opened + 14400000000)
              && not (deadline == before))
            ≡ false)
  validated_deadline_is_bounded e v reads h =
      let w = validate_entry-Validated e v h in
      let n = w.deadline - w.opened in
      let (low, high) = clamp_deadline-bounds n in
      (
        w.opened,
        w.deadline,
        w.opened + clamp_deadline n,
        rw w.result w.reads_opened,
        w.reads_deadline,
        rw w.result (reads (w.opened + clamp_deadline n)),
        omega (arith, low),
        omega (arith, high),
        rw w.result w.status,
        rw w.result refl,
        unchanged w.opened w.deadline w.ordered,
      )
