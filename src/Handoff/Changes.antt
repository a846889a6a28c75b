-- ===== src/Handoff/Changes.antt =====
-- Sequences of changes of the ledger (handoff_ledger.py, lines 353-369 and 561-619).
use cc_suite.Prelude.{
  ◌≡◌, ◌≢◌, refl, sym, ap, ◌∙◌, subst, Bool, true, false, not, ◌&&◌, ◌||◌, List, [], ◌∷◌, ◌++◌,
  String, str_eq, any, all, filter, length, ◌==◌, Result, ok, err, Bool-cases, inl, inr,
  if◌then◌else◌, arith,
}
use cc_suite.Handoff.Entry.{
  Handoff, Clock, DataFault, unknown_status, validate_entry, is_member, statuses,
}
use cc_suite.Handoff.Deadlines.{validate_entry-Validated}
use cc_suite.Handoff.Rows.{
  invalid, failure, transient, kernel_misconfigured, unmirrored, Host, Rows, has_id,
  is_misconfigured, mirror_fails, add_row, with_valid, append_handoff, swap_status, cas_status,
  remove_handoff, is_plain, written,
}
use cc_suite.Handoff.Once.{
  IsUnique, is_in, add_row-has, tried-has, tried-made, add_row-IsUnique, swap_status-count,
  filter-IsUnique, swap_status-miss, swap_status-leaves, swap_status-keeps,
}

pub data Change : Type 0 where
  adds : Host → Handoff → Change
  swaps : Host → String → String → String → String → String → Change
  removes : Host → String → Change

module _ ⦃clock : Clock⦄ where
  abbrev pub after_change : Change → Rows → Rows
  after_change (adds host e) rows = (append_handoff host e rows).1
  after_change (swaps host id expect to now_utc note) rows =
      (cas_status host id expect to now_utc note rows).1
  after_change (removes host id) rows = (remove_handoff host id rows).1

  abbrev pub after_changes : List Change → Rows → Rows
  after_changes [] rows = rows
  after_changes (c ∷ cs) rows = after_changes cs (after_change c rows)

  either {κ} :
      (P : Rows → Type κ) (b : Bool) (xs ys : Rows) → P xs → P ys → P (if b then xs else ys)
  either P true xs ys h k = h
  either P false xs ys h k = k

  cas_status-has {κ} :
      (P : Rows → Type κ) (host : Host) (id expect to now_utc note : String) (rows : Rows)
      → P rows
      → P (written (swap_status id expect to now_utc note rows).1)
      → P (cas_status host id expect to now_utc note rows).1
  unfolding cas_status
  cas_status-has P host id expect to now_utc note rows h k =
      let swapped = swap_status id expect to now_utc note rows in
      tried-has P (not (is_member statuses to)) (is_misconfigured host.kernel)
        (not host.is_readable || swapped.0 && not host.is_writable) (invalid unknown_status)
        kernel_misconfigured (failure host)
        (if mirror_fails host.kernel then err unmirrored else ok swapped.0) rows
        (if swapped.0 then written swapped.1 else rows) h (either P swapped.0 _ rows k h)

  remove_handoff-has {κ} :
      (P : Rows → Type κ) (host : Host) (id : String) (rows : Rows)
      → P rows
      → P (written (filter (λ r. not (has_id id r)) rows))
      → P (remove_handoff host id rows).1
  unfolding remove_handoff
  remove_handoff-has P host id rows h k =
      let kept = filter (λ r. not (has_id id r)) rows in
      let changed = not (length kept == length rows) in
      tried-has P false (is_misconfigured host.kernel)
        (not host.is_readable || changed && not host.is_writable) transient kernel_misconfigured
        (failure host) (if mirror_fails host.kernel then err unmirrored else ok changed) rows
        (if changed then written kept else rows) h (either P changed _ rows k h)

  append_handoff-IsUnique :
      (host : Host) (e : Handoff) (rows : Rows)
      → IsUnique rows
      → IsUnique (append_handoff host e rows).1
  unfolding append_handoff
  append_handoff-IsUnique host e rows u = valid (validate_entry e)
    where
      valid :
          (v : Result DataFault Handoff) → IsUnique (with_valid v rows (λ x. add_row host x rows)).1
      valid (ok v) = add_row-IsUnique host v rows u
      valid (err fault) = u

  change-IsUnique : (c : Change) (rows : Rows) → IsUnique rows → IsUnique (after_change c rows)
  unfolding IsUnique
  change-IsUnique (adds host e) rows u = append_handoff-IsUnique host e rows u
  change-IsUnique (swaps host id expect to now_utc note) rows u =
      cas_status-has IsUnique host id expect to now_utc note rows u (
        filter-IsUnique is_plain (swap_status id expect to now_utc note rows).1 (λ other.
          let same = swap_status-count id expect to now_utc note rows other in
          let l = u other in omega (arith, same)))
  change-IsUnique (removes host id) rows u = remove_handoff-has IsUnique host id rows u (
      filter-IsUnique is_plain (filter (λ r. not (has_id id r)) rows)
        (filter-IsUnique (λ r. not (has_id id r)) rows u))

  changes-IsUnique :
      (cs : List Change) (rows : Rows) → IsUnique rows → IsUnique (after_changes cs rows)
  changes-IsUnique [] rows u = u
  changes-IsUnique (c ∷ cs) rows u = changes-IsUnique cs _ (change-IsUnique c rows u)

  -- A change that does not put a row of this id into this status.
  unfoldable pub is_apart : String → String → Change → Bool
  is_apart id status (adds host e) = not (has_id id e)
  is_apart id status (swaps host other expect to now_utc note) =
      not (str_eq other id && str_eq to status)
  is_apart id status (removes host other) = true

  abbrev Left : String → String → Rows → Type 0
  Left id status rows = any (is_in id status) rows ≡ false

  filter-Left :
      (id status : String) (q : Handoff → Bool) (rows : Rows)
      → Left id status rows
      → Left id status (filter q rows)
  filter-Left id status q [] h = refl
  filter-Left id status q (r ∷ rs) h =
      let first : is_in id status r ≡ false = ground arith in
      let rest : any (is_in id status) rs ≡ false = ground arith in
      let ih = filter-Left id status q rs rest in
      elim (Bool-cases (q r)) [ inl e ↦ rw e (rw first ih) | inr e ↦ rw e ih ]

  added-Left :
      (id status : String) (rows : Rows) (e : Handoff)
      → has_id id e ≡ false
      → Left id status rows
      → Left id status (rows ++ e ∷ [])
  added-Left id status [] e k h = rw k refl
  added-Left id status (r ∷ rs) e k h =
      let first : is_in id status r ≡ false = ground arith in
      let rest : any (is_in id status) rs ≡ false = ground arith in
      rw first (added-Left id status rs e k rest)

  add_row-Left :
      (id status : String) (host : Host) (e : Handoff) (rows : Rows)
      → has_id id e ≡ false
      → Left id status rows
      → Left id status (add_row host e rows).1
  add_row-Left id status host e rows k h =
      add_row-has (Left id status) host e rows h
        (λ _. filter-Left id status is_plain (rows ++ e ∷ []) (added-Left id status rows e k h))

  append_handoff-Left :
      (id status : String) (host : Host) (e : Handoff) (rows : Rows)
      → has_id id e ≡ false
      → Left id status rows
      → Left id status (append_handoff host e rows).1
  unfolding append_handoff
  append_handoff-Left id status host e rows k h = valid (validate_entry e) refl
    where
      valid :
          (v : Result DataFault Handoff)
          → validate_entry e ≡ v
          → Left id status (with_valid v rows (λ x. add_row host x rows)).1
      valid (ok v) w =
          let same = ap (λ x. x.handoff_id) (validate_entry-Validated e v w).result in
          add_row-Left id status host v rows (ap (λ x. str_eq x id) same ∙ k) h
      valid (err fault) w = h

  change-Left :
      (id status : String) (c : Change) (rows : Rows)
      → is_apart id status c ≡ true
      → Left id status rows
      → Left id status (after_change c rows)
  unfolding is_apart
  change-Left id status (adds host e) rows a h =
      append_handoff-Left id status host e rows (ground arith) h
  change-Left id status (swaps host other expect to now_utc note) rows a h =
      cas_status-has (Left id status) host other expect to now_utc note rows h (
        filter-Left id status is_plain (swap_status other expect to now_utc note rows).1
          (swap_status-keeps id status other expect to now_utc note rows (ground arith) h))
  change-Left id status (removes host other) rows a h =
      remove_handoff-has (Left id status) host other rows h (
        filter-Left id status is_plain (filter (λ r. not (has_id other r)) rows)
          (filter-Left id status _ rows h))

  changes-Left :
      (id status : String) (cs : List Change) (rows : Rows)
      → all (is_apart id status) cs ≡ true
      → Left id status rows
      → Left id status (after_changes cs rows)
  changes-Left id status [] rows a h = h
  changes-Left id status (c ∷ cs) rows a h =
      let first : is_apart id status c ≡ true = ground arith in
      let rest : all (is_apart id status) cs ≡ true = ground arith in
      changes-Left id status cs (after_change c rows) rest (change-Left id status c rows first h)

  cas_status-made :
      (host : Host) (id expect to now_utc note : String) (rows : Rows)
      → (cas_status host id expect to now_utc note rows).0 ≡ ok true
      → ((swap_status id expect to now_utc note rows).0 ≡ true)
        × ((cas_status host id expect to now_utc note rows).1
            ≡ written (swap_status id expect to now_utc note rows).1)
  unfolding cas_status
  cas_status-made host id expect to now_utc note rows h =
      let swapped = swap_status id expect to now_utc note rows in
      let after = if swapped.0 then written swapped.1 else rows in
      let (made, same) =
        tried-made (not (is_member statuses to)) (is_misconfigured host.kernel)
          (not host.is_readable || swapped.0 && not host.is_writable) (invalid unknown_status)
          kernel_misconfigured (failure host) (mirror_fails host.kernel) swapped.0 rows after h in
      (made, same ∙ ap (λ b. if b then written swapped.1 else rows) made)

  -- For a ledger that any changes made of an empty one: no two of its rows have the same id. When
  -- `cas_status` returned True for an id and an expected status that is not the new one, and after any
  -- further changes that neither add a row of this id nor put it back into the expected status, a second
  -- `cas_status` that expects the same status does not return True, on any host.
  pub status_changes_once :
      (before later : List Change) (host again : Host)
      (id expect to now_utc note to_again now_again note_again : String)
      → expect ≢ to
      → all (is_apart id expect) later ≡ true
      → (cas_status host id expect to now_utc note (after_changes before [])).0 ≡ ok true
      → let changed = (cas_status host id expect to now_utc note (after_changes before [])).1 in
        IsUnique changed
        × ((cas_status again id expect to_again now_again note_again
              (after_changes later changed)).0
            ≢ ok true)
  unfolding IsUnique
  status_changes_once before later host again id expect to now_utc note to_again now_again
        note_again n a h =
      let rows = after_changes before [] in
      let unique = changes-IsUnique before [] (λ x. omega arith) in
      let (made, same) = cas_status-made host id expect to now_utc note rows h in
      let left =
        filter-Left id expect is_plain (swap_status id expect to now_utc note rows).1
          (swap_status-leaves id expect to now_utc note rows n (unique id) made) in
      let kept = changes-Left id expect later _ a (subst (Left id expect) (sym same) left) in
      let missed = swap_status-miss id expect to_again now_again note_again _ kept in
      (
        change-IsUnique (swaps host id expect to now_utc note) rows unique,
        λ k.
            (let twice = (cas_status-made again id expect to_again now_again note_again _ k).0 in
              let no : true ≡ false = sym twice ∙ missed in cc),
      )
