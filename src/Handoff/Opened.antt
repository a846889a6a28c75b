-- ===== src/Handoff/Opened.antt =====
-- What the operations that add rows leave in the ledger (handoff_ledger.py, lines
-- 353-427).
use mathlib.Core.List.{append-nil, append_assoc}
use cc_suite.Prelude.{
  ℕ, ◌≡◌, refl, sym, ap, ◌∙◌, subst, Bool, true, false, not, Option, [], ◌∷◌, ◌++◌, String,
  str_append, any, any-append_left, any-append_last, Result, ok, err, inl, inr, Bool-cases,
  if◌then◌else◌, eq_iff, raise_if-ok, arith, some, ◌⊎◌, filter,
}
use cc_suite.Handoff.Entry.{
  Handoff, Clock, DataFault, undeclared_artifact, unknown_owner, validate_entry, new_handoff,
  bad_timestamp,
}
use cc_suite.Handoff.Deadlines.{validate_entry-Validated, or_raise-ok}
use cc_suite.Handoff.Rows.{
  Fault, invalid, already_exists, transient, not_text, failure, unmirrored, kernel_misconfigured,
  Host, Rows, has_id, is_misconfigured, mirrored, add_row, with_valid, unless_dup, append_handoff,
  send_entry, open_from_send, is_plain, written, mirror_fails,
}

-- The rows with more of them at their end.
pub record Grown (rows after : Rows) : Type 0 where
  pub more : Rows
  pub same : after ≡ rows ++ more

pub Grown-refl : (rows : Rows) → Grown rows rows
Grown-refl rows = record { more = []; same = sym (append-nil rows) }

pub Grown-trans : {a b c : Rows} → Grown a b → Grown b c → Grown a c
Grown-trans {a} g h = record {
  more = g.more ++ h.more;
  same = h.same ∙ ap (λ x. x ++ h.more) g.same ∙ append_assoc a g.more h.more;
}

pub Grown-any : (p : Handoff → Bool) {a b : Rows} → Grown a b → any p a ≡ true → any p b ≡ true
Grown-any p {a} g e = subst (λ x. any p x ≡ true) (sym g.same) (any-append_left p a g.more e)

-- The result says that the row stands in the ledger.
abbrev is_there : Result Fault Handoff → Bool
is_there (ok row) = true
is_there (err already_exists) = true
is_there (err fault) = false

-- No row has a line separator in a text.
abbrev pub ArePlain : Rows → Type 0
ArePlain rows = written rows ≡ rows

filter-append :
    (q : Handoff → Bool) (xs ys : Rows) → filter q (xs ++ ys) ≡ filter q xs ++ filter q ys
filter-append q [] ys = refl
filter-append q (x ∷ xs) ys = ground (arith, filter-append q xs ys)

filter-twice : (q : Handoff → Bool) (xs : Rows) → filter q (filter q xs) ≡ filter q xs
filter-twice q [] = refl
filter-twice q (x ∷ xs) = elim (Bool-cases (q x)) [
  | inl e ↦ rw e (rw e (ap (λ l. x ∷ l) (filter-twice q xs)))
  | inr e ↦ rw e (filter-twice q xs)
]

-- A row that was added stands among the rows, or was lost with its separators.
added :
    (rows : Rows) (e : Handoff)
    → ArePlain rows
    → (any (has_id e.handoff_id) (written (rows ++ e ∷ [])) ≡ true) ⊎ (is_plain e ≡ false)
added rows e p = elim (Bool-cases (is_plain e)) [
  | inr k ↦ inr k
  | inl k ↦ inl (
      rw (filter-append is_plain rows (e ∷ []), p, k)
        (any-append_last (has_id e.handoff_id) rows e ((eq_iff e.handoff_id e.handoff_id).1 refl)))
]

-- What an operation that adds rows made of them: no row is lost, and where it says so, a row of this id
-- stands among them, or the row that it returns has a separator.
record Adds (id : String) (rows : Rows) (r : Result Fault Handoff × Rows) : Type 0 where
  grown : Grown rows r.1
  plain : ArePlain r.1
  stands :
      is_there r.0 ≡ true
      → (any (has_id id) r.1 ≡ true) ⊎ ((e : Handoff) × (r.0 ≡ ok e) × (is_plain e ≡ false))

unmoved-Adds :
    (id : String) (rows : Rows) (fault : Fault)
    → ArePlain rows
    → is_there (err fault) ≡ false
    → Adds id rows (err fault, rows)
unmoved-Adds id rows fault p h = record { grown = Grown-refl rows; plain = p; stands = λ e. cc }

failed-Adds :
    (id : String) (host : Host) (rows : Rows)
    → ArePlain rows
    → Adds id rows (err (failure host), rows)
failed-Adds id host rows p = unmoved-Adds id rows (failure host) p (nowhere host.is_unicode_error)
  where
    nowhere : (b : Bool) → is_there (err (if b then not_text else transient)) ≡ false
    nowhere true = refl
    nowhere false = refl

-- A row of this id stands already, and a mirror that fails says nothing of it.
known-Adds :
    (id : String) (host : Host) (rows : Rows)
    → ArePlain rows
    → any (has_id id) rows ≡ true
    → Adds id rows (mirrored host (err already_exists) rows)
known-Adds id host rows p h = record { grown = Grown-refl rows; plain = p; stands = λ e. inl h }

written-Adds :
    (host : Host) (rows : Rows) (e : Handoff)
    → ArePlain rows
    → Adds e.handoff_id rows (mirrored host (ok e) (written (rows ++ e ∷ [])))
written-Adds host rows e p = record {
  grown = record {
    more = written (e ∷ []);
    same = filter-append is_plain rows (e ∷ []) ∙ ap (λ x. x ++ written (e ∷ [])) p;
  };
  plain = filter-twice is_plain (rows ++ e ∷ []);
  stands = λ h. told (mirror_fails host.kernel) h (added rows e p);
}
  where
    told :
        (fails : Bool) {A : Type 0}
        → is_there (if fails then err unmirrored else ok e) ≡ true
        → A ⊎ (is_plain e ≡ false)
        → A
          ⊎ ((x : Handoff) × ((if fails then err unmirrored else ok e) ≡ ok x)
              × (is_plain x ≡ false))
    told true h k = cc
    told false h (inl a) = inl a
    told false h (inr k) = inr (e, refl, k)

add_row-Adds :
    (host : Host) (e : Handoff) (rows : Rows)
    → ArePlain rows
    → Adds e.handoff_id rows (add_row host e rows)
unfolding add_row
add_row-Adds host e rows p = elim (Bool-cases (is_misconfigured host.kernel)) [
  | inl a ↦ rw a (unmoved-Adds e.handoff_id rows kernel_misconfigured p refl)
  | inr a ↦ rw a (elim (Bool-cases host.is_readable) [
    | inr b ↦ rw b (failed-Adds e.handoff_id host rows p)
    | inl b ↦ rw b (locked (any (has_id e.handoff_id) rows) refl host.is_writable)
  ])
]
  where
    locked :
        (dup : Bool)
        → any (has_id e.handoff_id) rows ≡ dup
        → (w : Bool)
        → Adds e.handoff_id rows (
            if dup
            then mirrored host (err already_exists) rows
            else if not w
            then (err (failure host), rows)
            else mirrored host (ok e) (written (rows ++ e ∷ [])))
    locked true h w = known-Adds e.handoff_id host rows p h
    locked false h false = failed-Adds e.handoff_id host rows p
    locked false h true = written-Adds host rows e p

module _ ⦃clock : Clock⦄ where
  append_handoff-Adds :
      (host : Host) (e : Handoff) (rows : Rows)
      → ArePlain rows
      → Adds e.handoff_id rows (append_handoff host e rows)
  unfolding append_handoff
  append_handoff-Adds host e rows p = valid (validate_entry e) refl
    where
      valid :
          (v : Result DataFault Handoff)
          → validate_entry e ≡ v
          → Adds e.handoff_id rows (with_valid v rows (λ x. add_row host x rows))
      valid (ok v) h =
          let w = validate_entry-Validated e v h in
          let id : v.handoff_id ≡ e.handoff_id = ap (λ x. x.handoff_id) w.result in
          subst (λ x. Adds x rows (add_row host v rows)) id (add_row-Adds host v rows p)
      valid (err fault) h = unmoved-Adds e.handoff_id rows (invalid fault) p refl

  send_entry-id :
      (send_id from_agent owner_agent action opened_ts_utc artifact : String) (lifetime : ℕ)
      {e : Handoff}
      → send_entry send_id from_agent owner_agent action opened_ts_utc artifact lifetime ≡ ok e
      → e.handoff_id ≡ str_append "send-" send_id
  unfolding send_entry new_handoff
  send_entry-id send_id from_agent owner_agent action opened_ts_utc artifact lifetime {e} h =
      let (_, h1) = raise_if-ok _ undeclared_artifact _ h in
      let (_, h2) = raise_if-ok _ unknown_owner _ h1 in
      let (opened, _, h3) = or_raise-ok (clock.parse_ts opened_ts_utc) bad_timestamp _ h2 in
      ap (λ x. x.handoff_id) (validate_entry-Validated _ e h3).result

  -- A send that was opened, now or before, has its row.
  abbrev pub is_open : Result Fault (Option Handoff) → Bool
  is_open (ok row) = true
  is_open (err fault) = false

  pub record Opens (id : String) (rows : Rows) (r : Result Fault (Option Handoff) × Rows)
      : Type 0 where
    pub grown : Grown rows r.1
    pub plain : ArePlain r.1
    pub stands :
        is_open r.0 ≡ true
        → (any (has_id id) r.1 ≡ true)
          ⊎ ((e : Handoff) × (r.0 ≡ ok (some e)) × (is_plain e ≡ false))

  unless_dup-Opens :
      (id : String) (rows : Rows) (r : Result Fault Handoff) (after : Rows)
      → Adds id rows (r, after)
      → Opens id rows (unless_dup r, after)
  unless_dup-Opens id rows (ok row) after a = record {
    grown = a.grown;
    plain = a.plain;
    stands = λ _. elim (a.stands refl) [
      | inl h ↦ inl h
      | inr (e, same, k) ↦ inr (e, ap unless_dup same, k)
    ];
  }
  unless_dup-Opens id rows (err already_exists) after a = record {
    grown = a.grown;
    plain = a.plain;
    stands = λ _. elim (a.stands refl) [ inl h ↦ inl h | inr (e, same, k) ↦ cc ];
  }
  unless_dup-Opens id rows (err (invalid f)) after a = record {
    grown = a.grown;
    plain = a.plain;
    stands = λ e. cc;
  }
  unless_dup-Opens id rows (err kernel_misconfigured) after a = record {
    grown = a.grown;
    plain = a.plain;
    stands = λ e. cc;
  }
  unless_dup-Opens id rows (err unmirrored) after a = record {
    grown = a.grown;
    plain = a.plain;
    stands = λ e. cc;
  }
  unless_dup-Opens id rows (err not_text) after a = record {
    grown = a.grown;
    plain = a.plain;
    stands = λ e. cc;
  }
  unless_dup-Opens id rows (err transient) after a = record {
    grown = a.grown;
    plain = a.plain;
    stands = λ e. cc;
  }

  pub open_from_send-Opens :
      (host : Host) (send_id from_agent owner_agent action opened_ts_utc artifact : String)
      (lifetime : ℕ) (rows : Rows)
      → ArePlain rows
      → Opens (str_append "send-" send_id) rows (
          open_from_send host send_id from_agent owner_agent action opened_ts_utc artifact lifetime
            rows)
  unfolding open_from_send
  open_from_send-Opens host send_id from_agent owner_agent action opened_ts_utc artifact lifetime
        rows p =
      made (send_entry send_id from_agent owner_agent action opened_ts_utc artifact lifetime) refl
    where
      made :
          (v : Result DataFault Handoff)
          → send_entry send_id from_agent owner_agent action opened_ts_utc artifact lifetime ≡ v
          → let r = with_valid v rows (λ e. append_handoff host e rows) in
            Opens (str_append "send-" send_id) rows (unless_dup r.0, r.1)
      made (ok v) h =
          let id =
            send_entry-id send_id from_agent owner_agent action opened_ts_utc artifact lifetime h in
          let r = append_handoff host v rows in
          unless_dup-Opens (str_append "send-" send_id) rows r.0 r.1
            (subst (λ x. Adds x rows r) id (append_handoff-Adds host v rows p))
      made (err fault) h =
          unless_dup-Opens (str_append "send-" send_id) rows (err (invalid fault)) rows
            (unmoved-Adds (str_append "send-" send_id) rows (invalid fault) p refl)
