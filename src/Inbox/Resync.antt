-- ===== src/Inbox/Resync.antt =====
-- The drain under a truncated queue, and the role's checkpoint (durable_inbox.py, lines 182-192 and
-- 246-318).
use cc_suite.Prelude.{
  ℕ, ◌+◌, ◌≤◌, ◌≡◌, refl, ◌∙◌, Bool, true, false, none, some, List, [], ◌∷◌, String, if◌then◌else◌,
  length, drop, take, arith,
}
use cc_suite.Inbox.Lines.{complete_lines}
use cc_suite.Inbox.Drain.{
  Libraries, Disk, Event, Raises, Outcome, process, is_desync, resync_line, resync_disk,
  drain_queue, save_both, save_cursor, save_role_checkpoint, load_role_checkpoint, load_cursor,
  start_line, is_empty_list, Drained, stopped, result_of,
}
use cc_suite.Inbox.Position.{events_of, process-IsOutcome, nothing_of}

module _ ⦃lib : Libraries⦄ where
  save_both-checkpoint :
      (pid : ℕ) (role : String) (lines : List String) (m : ℕ) (d : Disk)
      → (load_role_checkpoint d.role ≤ load_role_checkpoint (save_both pid role lines m d).role)
        × (d.is_writable ≡ true
            → ((load_cursor (save_both pid role lines m d).own).line ≡ m)
              × (m ≤ load_role_checkpoint (save_both pid role lines m d).role)
              × (load_role_checkpoint d.role ≡ 0
                  → load_role_checkpoint (save_both pid role lines m d).role ≡ m))
  unfolding save_cursor save_role_checkpoint load_role_checkpoint load_cursor
  save_both-checkpoint pid role lines m d =
      (ground arith, λ w. (ground arith, ground arith, λ z. ground arith))

  reset-checkpoint :
      (d : Disk)
      → d.is_writable ≡ true
      → ((save_role_checkpoint 0 true d).is_writable ≡ true)
        × (load_role_checkpoint (save_role_checkpoint 0 true d).role ≡ 0)
  unfolding save_role_checkpoint load_role_checkpoint
  reset-checkpoint d w = (ground arith, ground arith)

  -- What stands in the queue is behind the cursor, or what stands before the cursor is not what was
  -- there, the cursor files can be written, and the drain reaches no line on which the JSON decoder
  -- raises another error than JSONDecodeError: then the drain returns and has handed the queue over
  -- from its first line, as far as the first callback that raises, and its result, the cursor and the
  -- role's checkpoint all say how far it went.
  pub desync_delivers_from_start :
      (raises : Raises) (calls : List Event) (pid : ℕ) (role : String) (d : Disk)
      → is_desync d (complete_lines d.queue) ≡ true
      → d.is_writable ≡ true
      → (drain_queue raises calls pid role d).2.escaped ≡ false
      → let r = drain_queue raises calls pid role d in
        (r.0 ≡ some (result_of r.2))
        × (r.2.handled ≡ events_of (take r.2.processed (complete_lines d.queue)))
        × ((load_cursor r.1.own).line ≡ r.2.processed)
        × (load_role_checkpoint r.1.role ≡ r.2.processed)
        × (r.2.held ≡ false → r.2.processed ≡ length (complete_lines d.queue))
  unfolding drain_queue resync_line resync_disk
  desync_delivers_from_start raises calls pid role d h w =
      rw h (chosen (is_empty_list lines) o.escaped refl refl)
    where
      lines : List String
      lines = complete_lines d.queue

      o : Outcome
      o = process raises calls lines

      disk : Disk
      disk = save_role_checkpoint 0 true d

      reset : (disk.is_writable ≡ true) × (load_role_checkpoint disk.role ≡ 0)
      reset = reset-checkpoint d w

      steady :
          (m n : ℕ)
          → m ≡ n
          → ((load_cursor (save_both pid role lines m disk).own).line ≡ n)
            × (load_role_checkpoint (save_both pid role lines m disk).role ≡ n)
      steady m n e =
          let (line, _, exact) = (save_both-checkpoint pid role lines m disk).1 reset.0 in
          (line ∙ e, exact reset.1 ∙ e)

      emptied : (ls : List String) → is_empty_list ls ≡ true → 0 ≡ length ls
      emptied [] e = refl
      emptied (x ∷ xs) e = cc

      chosen :
          (b x : Bool)
          → is_empty_list lines ≡ b
          → o.escaped ≡ x
          → let r : Drained =
              if b
              then (
                some (result_of (stopped calls)),
                save_both pid role lines 0 disk,
                stopped calls,
              )
              else if x
              then (none, disk, o)
              else (some (result_of o), save_both pid role lines (0 + o.processed) disk, o) in
            r.2.escaped ≡ false
            → (r.0 ≡ some (result_of r.2))
              × (r.2.handled ≡ events_of (take r.2.processed lines))
              × ((load_cursor r.1.own).line ≡ r.2.processed)
              × (load_role_checkpoint r.1.role ≡ r.2.processed)
              × (r.2.held ≡ false → r.2.processed ≡ length lines)
      chosen true x e f g =
          let (line, high) = steady 0 0 refl in
          (refl, nothing_of lines, line, high, λ k. emptied lines e)
      chosen false true e f g = cc
      chosen false false e f g =
          let (handled, few, all_of) = process-IsOutcome raises calls lines in
          let (line, high) = steady (0 + o.processed) o.processed (omega arith) in
          (refl, handled, line, high, λ k. all_of k f)

  -- A drain that finds no desync never moves the role's checkpoint back, whatever the callback does,
  -- whether or not the files can be written and whether or not it returns; when it returns and they can
  -- be written, the checkpoint is then at least the cursor's line.
  pub checkpoint_never_rewinds :
      (raises : Raises) (calls : List Event) (pid : ℕ) (role : String) (d : Disk)
      → is_desync d (complete_lines d.queue) ≡ false
      → let r = drain_queue raises calls pid role d in
        (load_role_checkpoint d.role ≤ load_role_checkpoint r.1.role)
        × (d.is_writable ≡ true
            → r.2.escaped ≡ false
            → (load_cursor r.1.own).line ≤ load_role_checkpoint r.1.role)
  unfolding drain_queue resync_line resync_disk
  checkpoint_never_rewinds raises calls pid role d h =
      rw h (chosen (is_empty_list (drop start lines)) o.escaped refl)
    where
      lines : List String
      lines = complete_lines d.queue

      start : ℕ
      start = start_line d.own d.role

      o : Outcome
      o = process raises calls (drop start lines)

      steady :
          (m : ℕ)
          → (load_role_checkpoint d.role ≤ load_role_checkpoint (save_both pid role lines m d).role)
            × (d.is_writable ≡ true
                → (load_cursor (save_both pid role lines m d).own).line
                  ≤ load_role_checkpoint (save_both pid role lines m d).role)
      steady m =
          let (up, kept) = save_both-checkpoint pid role lines m d in
          (up, λ w. let (line, high, _) = kept w in omega (arith, line, high))

      chosen :
          (b x : Bool)
          → o.escaped ≡ x
          → let r : Drained =
              if b
              then (
                some (result_of (stopped calls)),
                save_both pid role lines start d,
                stopped calls,
              )
              else if x
              then (none, d, o)
              else (some (result_of o), save_both pid role lines (start + o.processed) d, o) in
            (load_role_checkpoint d.role ≤ load_role_checkpoint r.1.role)
            × (d.is_writable ≡ true
                → r.2.escaped ≡ false
                → (load_cursor r.1.own).line ≤ load_role_checkpoint r.1.role)
      chosen true x e = let (up, kept) = steady start in (up, λ w _. kept w)
      chosen false true e = (omega arith, λ w f. cc)
      chosen false false e = let (up, kept) = steady (start + o.processed) in (up, λ w _. kept w)
