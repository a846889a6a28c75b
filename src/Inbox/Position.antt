-- ===== src/Inbox/Position.antt =====
-- Where a consumer's cursor stands, and what one drain does from there (durable_inbox.py, lines
-- 218-322).
use cc_suite.Prelude.{
  ℕ, zero, suc, ◌+◌, ◌≤◌, ◌≡◌, refl, ap, ◌∙◌, Bool, true, false, ◌&&◌, ◌||◌, none, some, List, [],
  ◌∷◌, ◌++◌, String, str_eq, ltb, if◌then◌else◌, ◌⊎◌, length, drop, take, get_elem?, arith,
  Bool-cases, inl, inr, eq_iff, length-drop, subst,
}
use cc_suite.Inbox.Lines.{complete_lines}
use cc_suite.Inbox.Drain.{
  missing, holds, Cursor, Decoded, malformed, not_object, raises_other, object, stopped, result_of,
  Libraries, Disk, Event, Raises, Outcome, event_of, process, anchor_at, is_diverged, is_desync,
  resync_line, resync_disk, drain_queue, save_both, save_cursor, save_role_checkpoint,
  load_role_checkpoint, load_cursor, start_line, Drained, is_empty_list,
}

module _ ⦃lib : Libraries⦄ where
  abbrev cons_event : Decoded lib.Object → List Event → List Event
  cons_event (object o) es = event_of o ∷ es
  cons_event malformed es = es
  cons_event not_object es = es
  cons_event raises_other es = es

  -- The events of a run of lines: those that hold a JSON object.
  unfoldable pub events_of : List String → List Event
  events_of [] = []
  events_of (line ∷ lines) = cons_event (lib.loads line) (events_of lines)

  pub nothing_of : (lines : List String) → [] ≡ events_of (take 0 lines)
  unfolding events_of
  nothing_of lines = refl

  abbrev pub IsOutcome : Raises → List Event → List String → Outcome → Type 0
  IsOutcome raises calls lines o =
      (o.handled ≡ events_of (take o.processed lines))
      × (o.processed ≤ length lines)
      × (o.held ≡ false → o.escaped ≡ false → o.processed ≡ length lines)

  pub process-IsOutcome :
      (raises : Raises) (calls : List Event) (lines : List String)
      → IsOutcome raises calls lines (process raises calls lines)
  unfolding process events_of
  process-IsOutcome raises calls [] = (refl, omega arith, λ h k. refl)
  process-IsOutcome raises calls (line ∷ rest) =
      step (lib.loads line) refl (λ cs. process-IsOutcome raises cs rest)
    where
      step :
          (d : Decoded lib.Object)
          → lib.loads line ≡ d
          → ((cs : List Event) → IsOutcome raises cs rest (process raises cs rest))
          → IsOutcome raises calls (line ∷ rest) (process raises calls (line ∷ rest))
      step malformed e ih =
          let (h, l, k) = ih calls in rw e (rw e h, omega (arith, l), λ x y. omega (arith, k x y))
      step not_object e ih =
          let (h, l, k) = ih calls in rw e (rw e h, omega (arith, l), λ x y. omega (arith, k x y))
      step raises_other e ih = rw e (refl, omega arith, λ x y. cc)
      step (object o) e ih =
          let (h, l, k) = ih (calls ++ (event_of o ∷ [])) in
          rw e (elim (Bool-cases (raises calls (event_of o))) [
            | inl r ↦ rw r (refl, omega arith, λ x y. cc)
            | inr r ↦
                rw r (
                  rw e (ap (λ es. event_of o ∷ es) h),
                  omega (arith, l),
                  λ x y. omega (arith, k x y),
                )
          ])

  pub events_of-append : (xs ys : List String) → events_of (xs ++ ys) ≡ events_of xs ++ events_of ys
  unfolding events_of
  events_of-append [] ys = refl
  events_of-append (x ∷ xs) ys = joined (lib.loads x) (events_of-append xs ys)
    where
      joined :
          (d : Decoded lib.Object)
          → events_of (xs ++ ys) ≡ events_of xs ++ events_of ys
          → cons_event d (events_of (xs ++ ys)) ≡ cons_event d (events_of xs) ++ events_of ys
      joined malformed h = h
      joined not_object h = h
      joined raises_other h = h
      joined (object o) h = ap (λ es. event_of o ∷ es) h

  str_eq_refl : (s : String) → str_eq s s ≡ true
  str_eq_refl s = (eq_iff s s).1 refl

  -- The own cursor stands at line `n` of the lines, with the anchor of the line before it; or the
  -- consumer and its role have no files yet, and `n` is 0.
  unfoldable pub StandsAt : List String → Disk → ℕ → Type 0
  StandsAt lines d n =
      (d.is_writable ≡ true)
      × (n ≤ length lines)
      × (((d.own ≡ missing) × (d.role ≡ missing) × (n ≡ 0))
          ⊎ ((c : Cursor) × (d.own ≡ holds c) × (c.line ≡ n) × (c.anchor ≡ anchor_at lines n)))

  element :
      (lines : List String) (n : ℕ)
      → suc n ≤ length lines
      → (x : String) × (get_elem? lines n ≡ some x)
  element [] n h = elim h [ ]
  element (x ∷ xs) zero h = (x, refl)
  element (x ∷ xs) (suc n) h = element xs n (omega arith)

  not-diverged :
      (lines : List String) (d : Disk) (n : ℕ)
      → StandsAt lines d n
      → (is_desync d lines ≡ false) × (start_line d.own d.role ≡ n)
  unfolding StandsAt is_desync start_line load_cursor load_role_checkpoint is_diverged anchor_at
  not-diverged lines d n (w, l, inl (own, role, z)) = rw (own, role, z) (ground arith, refl)
  not-diverged lines d zero (w, l, inr (c, own, line, anchor)) = rw (own, line) (ground arith, refl)
  not-diverged lines d (suc n) (w, l, inr (c, own, line, anchor)) =
      let (prev, e) = element lines n l in
      rw (own, line, anchor, e) (ground (arith, str_eq_refl (lib.sha1 prev)), refl)

  save_role-keeps :
      (n : ℕ) (force : Bool) (d : Disk)
      → ((save_role_checkpoint n force d).own ≡ d.own)
        × ((save_role_checkpoint n force d).queue ≡ d.queue)
        × ((save_role_checkpoint n force d).is_writable ≡ d.is_writable)
  unfolding save_role_checkpoint
  save_role-keeps n force d = kept ((force || ltb (load_role_checkpoint d.role) n) && d.is_writable)
    where
      kept :
          (b : Bool)
          → let x = if b then record d { role = holds n } else d in
            (x.own ≡ d.own) × (x.queue ≡ d.queue) × (x.is_writable ≡ d.is_writable)
      kept true = (refl, refl, refl)
      kept false = (refl, refl, refl)

  save_both-StandsAt :
      (pid : ℕ) (role : String) (lines : List String) (m : ℕ) (d : Disk)
      → d.is_writable ≡ true
      → m ≤ length lines
      → StandsAt lines (save_both pid role lines m d) m
        × ((save_both pid role lines m d).queue ≡ d.queue)
        × ((load_cursor (save_both pid role lines m d).own).line ≡ m)
  unfolding StandsAt save_cursor save_role_checkpoint load_cursor
  save_both-StandsAt pid role lines m d w l =
      let c : Cursor = record { line = m; pid = pid; role = role; anchor = anchor_at lines m } in
      let saved : save_cursor m pid role (anchor_at lines m) d ≡ record d { own = holds c } =
        rw w refl in
      let (own, queue, writable) =
        save_role-keeps m false (save_cursor m pid role (anchor_at lines m) d) in
      let own' : (save_both pid role lines m d).own ≡ holds c = own ∙ ap (λ x. x.own) saved in
      (
        (writable ∙ (ap (λ x. x.is_writable) saved ∙ w), l, inr (c, own', refl, refl)),
        queue ∙ ap (λ x. x.queue) saved,
        ap (λ x. (load_cursor x).line) own',
      )

  -- What one drain from line `n` does that no error leaves: it reports how many lines it passed and
  -- hands over the events of exactly those lines.
  unfoldable pub IsDrained : ℕ → Disk → Drained → Type 0
  IsDrained n d (res, d', o) =
      StandsAt (complete_lines d.queue) d' (n + o.processed)
      × (d'.queue ≡ d.queue)
      × ((load_cursor d'.own).line ≡ n + o.processed)
      × (o.handled ≡ events_of (take o.processed (drop n (complete_lines d.queue))))
      × (res ≡ some (result_of o))
      × (o.held ≡ false → n + o.processed ≡ length (complete_lines d.queue))

  idle-IsDrained :
      (calls : List Event) (pid : ℕ) (role : String) (d : Disk) (n : ℕ)
      → StandsAt (complete_lines d.queue) d n
      → is_empty_list (drop n (complete_lines d.queue)) ≡ true
      → IsDrained n d (
        some (result_of (stopped calls)),
        save_both pid role (complete_lines d.queue) n d,
        stopped calls,
      )
  unfolding IsDrained StandsAt events_of
  idle-IsDrained calls pid role d n (w, l, _) e =
      let (stands, queue, line) = save_both-StandsAt pid role (complete_lines d.queue) n d w l in
      let whole : n ≡ length (complete_lines d.queue) =
        at_end (drop n (complete_lines d.queue)) e (length-drop n (complete_lines d.queue) l) in
      let still : n ≡ n + 0 = omega arith in
      (
        subst (StandsAt (complete_lines d.queue) (save_both pid role (complete_lines d.queue) n d))
            still stands,
        queue,
        line ∙ still,
        refl,
        refl,
        λ h. omega (arith, whole),
      )
    where
      at_end :
          (ls : List String) {total : ℕ}
          → is_empty_list ls ≡ true
          → length ls + n ≡ total
          → n ≡ total
      at_end [] h k = omega (arith, k)
      at_end (x ∷ xs) h k = cc

  busy-IsDrained :
      (raises : Raises) (calls : List Event) (pid : ℕ) (role : String) (d : Disk) (n : ℕ)
      → StandsAt (complete_lines d.queue) d n
      → (process raises calls (drop n (complete_lines d.queue))).escaped ≡ false
      → let o = process raises calls (drop n (complete_lines d.queue)) in
        IsDrained n d
          (some (result_of o), save_both pid role (complete_lines d.queue) (n + o.processed) d, o)
  unfolding IsDrained StandsAt
  busy-IsDrained raises calls pid role d n (w, l, _) x =
      let o = process raises calls (drop n (complete_lines d.queue)) in
      let (handled, few, all_of) =
        process-IsOutcome raises calls (drop n (complete_lines d.queue)) in
      let size = length-drop n (complete_lines d.queue) l in
      let (stands, queue, line) =
        save_both-StandsAt pid role (complete_lines d.queue) (n + o.processed) d w
          (omega (arith, few, size)) in
      (stands, queue, line, handled, refl, λ h. omega (arith, all_of h x, size))

  pub drain_queue-IsDrained :
      (raises : Raises) (calls : List Event) (pid : ℕ) (role : String) (d : Disk) (n : ℕ)
      → StandsAt (complete_lines d.queue) d n
      → (drain_queue raises calls pid role d).2.escaped ≡ false
      → IsDrained n d (drain_queue raises calls pid role d)
  unfolding IsDrained drain_queue resync_line resync_disk
  drain_queue-IsDrained raises calls pid role d n s =
      let (synced, start) = not-diverged (complete_lines d.queue) d n s in
      rw (synced, start)
        (chosen (is_empty_list (drop n (complete_lines d.queue)))
          (process raises calls (drop n (complete_lines d.queue))).escaped refl refl)
    where
      chosen :
          (b x : Bool)
          → is_empty_list (drop n (complete_lines d.queue)) ≡ b
          → (process raises calls (drop n (complete_lines d.queue))).escaped ≡ x
          → let o = process raises calls (drop n (complete_lines d.queue)) in
            let r : Drained =
              if b
              then (
                some (result_of (stopped calls)),
                save_both pid role (complete_lines d.queue) n d,
                stopped calls,
              )
              else if x
              then (none, d, o)
              else (
                some (result_of o),
                save_both pid role (complete_lines d.queue) (n + o.processed) d,
                o,
              ) in
            r.2.escaped ≡ false → IsDrained n d r
      chosen true x e f h = idle-IsDrained calls pid role d n s e
      chosen false true e f h = cc
      chosen false false e f h = busy-IsDrained raises calls pid role d n s f
