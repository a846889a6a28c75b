-- ===== src/Inbox/Delivery.antt =====
-- What a consumer of the queue gets over a history of appends and drains (durable_inbox.py, lines
-- 218-322), as a step relation on the disk and the calls.
use cc_suite.Prelude.{
  ℕ, zero, suc, ◌+◌, ◌≤◌, ◌≡◌, refl, sym, ap, ◌∙◌, true, false, Option, none, some, List, [], ◌∷◌,
  ◌++◌, String, ◌⊎◌, length, drop, take, get_elem?, arith, inl, inr, str_append, length-append,
}
use cc_suite.Inbox.Lines.{complete_lines, appending_keeps_lines}
use cc_suite.Inbox.Drain.{
  missing, holds, Cursor, Libraries, Disk, Event, Raises, anchor_at, drain_queue, load_cursor,
  Drained, result_of,
}
use cc_suite.Inbox.Position.{
  events_of, events_of-append, StandsAt, IsDrained, drain_queue-IsDrained,
}

module _ ⦃lib : Libraries⦄ where
  -- What a consumer and its writers did so far: the disk, and the calls that returned.
  pub data History : Disk → List Event → Type 0 where
    fresh :
        (queue : Option String)
        → History (record { queue = queue; own = missing; role = missing; is_writable = true }) []
    created :
        {d : Disk} {es : List Event} (text : String)
        → History d es
        → d.queue ≡ none
        → History (record d { queue = some text }) es
    appended :
        {d : Disk} {es : List Event} (raw text : String)
        → History d es
        → d.queue ≡ some raw
        → History (record d { queue = some (str_append raw text) }) es
    drained :
        {d : Disk} {es : List Event} (raises : Raises) (calls : List Event) (pid : ℕ)
        (role : String)
        → History d es
        → (drain_queue raises calls pid role d).2.escaped ≡ false
        → History
            (drain_queue raises calls pid role d).1
            (es ++ (drain_queue raises calls pid role d).2.handled)

  -- All that came before line `n` was handed over, in order, and nothing else.
  IsDelivered : Disk → List Event → Type 0
  IsDelivered d es =
      (n : ℕ) × StandsAt (complete_lines d.queue) d n
      × (es ≡ events_of (take n (complete_lines d.queue)))

  take-append : (n : ℕ) (xs ys : List String) → n ≤ length xs → take n (xs ++ ys) ≡ take n xs
  take-append zero xs ys h = refl
  take-append (suc n) [] ys h = elim h [ ]
  take-append (suc n) (x ∷ xs) ys h = ap (λ l. x ∷ l) (take-append n xs ys (omega arith))

  take-drop : (n m : ℕ) (xs : List String) → take n xs ++ take m (drop n xs) ≡ take (n + m) xs
  take-drop zero m xs = let z : 0 + m ≡ m = omega arith in rw z refl
  take-drop (suc n) zero [] = let z : suc n + 0 ≡ suc n = omega arith in rw z refl
  take-drop (suc n) (suc m) [] = let z : suc n + suc m ≡ suc (n + suc m) = omega arith in rw z refl
  take-drop (suc n) m (x ∷ xs) =
      let z : suc n + m ≡ suc (n + m) = omega arith in rw z (ap (λ l. x ∷ l) (take-drop n m xs))

  get_elem?-append :
      (n : ℕ) (xs ys : List String) → suc n ≤ length xs → get_elem? (xs ++ ys) n ≡ get_elem? xs n
  get_elem?-append n [] ys h = elim h [ ]
  get_elem?-append zero (x ∷ xs) ys h = refl
  get_elem?-append (suc n) (x ∷ xs) ys h = get_elem?-append n xs ys (omega arith)

  anchor_at-append :
      (n : ℕ) (xs ys : List String) → n ≤ length xs → anchor_at (xs ++ ys) n ≡ anchor_at xs n
  unfolding anchor_at
  anchor_at-append zero xs ys h = refl
  anchor_at-append (suc n) xs ys h = rw (get_elem?-append n xs ys h) refl

  -- New complete lines at the end of the queue leave the consumer where it is.
  grown-IsDelivered :
      (d : Disk) (es : List Event) (queue : Option String) (more : List String)
      → complete_lines queue ≡ complete_lines d.queue ++ more
      → IsDelivered d es
      → IsDelivered (record d { queue = queue }) es
  unfolding IsDelivered StandsAt
  grown-IsDelivered d es queue more e (n, (w, l, at), h) =
      let ls = complete_lines d.queue in
      (
        n,
        (w, rw e (omega (arith, l, length-append ls more)), rw e (stands ls l at)),
        rw e (h ∙ ap events_of (sym (take-append n ls more l))),
      )
    where
      stands :
          (ls : List String)
          → n ≤ length ls
          → ((d.own ≡ missing) × (d.role ≡ missing) × (n ≡ 0))
            ⊎ ((c : Cursor) × (d.own ≡ holds c) × (c.line ≡ n) × (c.anchor ≡ anchor_at ls n))
          → ((d.own ≡ missing) × (d.role ≡ missing) × (n ≡ 0))
            ⊎ ((c : Cursor) × (d.own ≡ holds c)
                × (c.line ≡ n)
                × (c.anchor ≡ anchor_at (ls ++ more) n))
      stands ls k (inl x) = inl x
      stands ls k (inr (c, own, line, anchor)) =
          inr (c, own, line, anchor ∙ sym (anchor_at-append n ls more k))

  drained-IsDelivered :
      (d : Disk) (es : List Event) (r : Drained) (n : ℕ)
      → n ≤ length (complete_lines d.queue)
      → es ≡ events_of (take n (complete_lines d.queue))
      → IsDrained n d r
      → StandsAt (complete_lines d.queue) r.1 (n + r.2.processed)
        × (r.1.queue ≡ d.queue)
        × ((es ++ r.2.handled) ≡ events_of (take (n + r.2.processed) (complete_lines d.queue)))
  unfolding IsDrained
  drained-IsDelivered d es r n l h (stands, queue, line, handled, _, _) =
      let ls = complete_lines d.queue in
      (
        stands,
        queue,
        rw (h, handled)
            (sym (events_of-append (take n ls) (take r.2.processed (drop n ls)))
              ∙ ap events_of (take-drop n r.2.processed ls)),
      )

  no_lines : (ls : List String) → ls ≡ complete_lines none ++ ls
  unfolding complete_lines
  no_lines ls = refl

  History-IsDelivered : {d : Disk} {es : List Event} → History d es → IsDelivered d es
  unfolding IsDelivered StandsAt events_of
  History-IsDelivered (fresh queue) = (0, (refl, omega arith, inl (refl, refl, refl)), refl)
  History-IsDelivered (created {d} {es} text h e) =
      grown-IsDelivered d es (some text) (complete_lines (some text))
        (rw e (no_lines (complete_lines (some text)))) (History-IsDelivered h)
  History-IsDelivered (appended {d} {es} raw text h e) =
      let (more, k) = appending_keeps_lines raw text in
      grown-IsDelivered d es (some (str_append raw text)) more (rw e k) (History-IsDelivered h)
  History-IsDelivered (drained {d} {es} raises calls pid role h x) =
      let (n, s, e) = History-IsDelivered h in
      let r = drain_queue raises calls pid role d in
      let (stands, queue, all) =
        drained-IsDelivered d es r n s.1 e (drain_queue-IsDrained raises calls pid role d n s x) in
      (n + r.2.processed, rw queue stands, rw queue all)

  take-all : (ls : List String) → take (length ls) ls ≡ ls
  take-all [] = refl
  take-all (x ∷ xs) = ap (λ l. x ∷ l) (take-all xs)

  -- For a consumer that starts with no cursor on a queue that is only ever created or appended to, by
  -- any pieces of text, where its role has no checkpoint at the start either, and where the cursor files
  -- can be written and no drain reaches a line on which the JSON decoder raises another error than
  -- JSONDecodeError: after any history of appends and drains, with any callback, one more drain
  -- returns, and leaves the calls that returned, over the whole history, equal to the events of the
  -- complete lines before its cursor, each exactly once and in order. When no callback raised in that
  -- drain, they are the events of all complete lines of the queue.
  pub delivered_once :
      {d : Disk} {es : List Event}
      → History d es
      → (raises : Raises) (calls : List Event) (pid : ℕ) (role : String)
      → (drain_queue raises calls pid role d).2.escaped ≡ false
      → let r = drain_queue raises calls pid role d in
        (r.0 ≡ some (result_of r.2))
        × ((es ++ r.2.handled)
            ≡ events_of (take (load_cursor r.1.own).line (complete_lines d.queue)))
        × (r.2.held ≡ false → (es ++ r.2.handled) ≡ events_of (complete_lines d.queue))
  unfolding IsDelivered StandsAt IsDrained
  delivered_once {d} {es} h raises calls pid role x =
      let (n, s, e) = History-IsDelivered h in
      let r = drain_queue raises calls pid role d in
      let drained_ok = drain_queue-IsDrained raises calls pid role d n s x in
      let (_, _, all_of) = drained-IsDelivered d es r n s.1 e drained_ok in
      (
        drained_ok.4,
        rw drained_ok.2 all_of,
        λ k.
            all_of
            ∙ ap events_of (
                ap (λ m. take m (complete_lines d.queue)) (drained_ok.5 k)
                ∙ take-all (complete_lines d.queue)),
      )
