-- ===== src/Handoff/Once.antt =====
-- One row for an id, and a status that is changed once (handoff_ledger.py, lines 353-427 and 561-619).
use cc_suite.Prelude.{
  ◌≤◌, ◌≡◌, ◌≢◌, refl, sym, ◌∙◌, subst, Bool, true, false, not, ◌&&◌, [], ◌∷◌, ◌++◌, String, str_eq,
  any, filter, count_where, count_where-append, Result, ok, err, Bool-cases, inl, inr,
  if◌then◌else◌, eq_iff, arith,
}
use cc_suite.Handoff.Entry.{Handoff}
use cc_suite.Handoff.Rows.{
  Fault, Host, failure, Rows, has_id, is_misconfigured, mirrored, add_row, swap_status, changed_row,
  is_plain, written,
}

unfoldable pub IsUnique : Rows → Type 0
IsUnique rows = (id : String) → count_where (has_id id) rows ≤ 1

none-count : (p : Handoff → Bool) (rows : Rows) → any p rows ≡ false → count_where p rows ≡ 0
none-count p [] h = refl
none-count p (r ∷ rs) h = ground (arith, none-count p rs)

-- A row that is not in the ledger yet.
added-IsUnique :
    (rows : Rows) (e : Handoff)
    → any (has_id e.handoff_id) rows ≡ false
    → IsUnique rows
    → IsUnique (rows ++ e ∷ [])
unfolding IsUnique
added-IsUnique rows e h u id = elim (Bool-cases (has_id id e)) [
  | inl k ↦
      (let same = (eq_iff e.handoff_id id).0 k in
        let fresh = none-count (has_id id) rows (subst (λ x. any (has_id x) rows ≡ false) same h) in
        rw (count_where-append (has_id id) rows (e ∷ []), fresh, k) (omega arith))
  | inr k ↦ rw (count_where-append (has_id id) rows (e ∷ []), k) (let l = u id in omega arith)
]

pub filter-count :
    (p q : Handoff → Bool) (rows : Rows) → count_where p (filter q rows) ≤ count_where p rows
filter-count p q [] = omega arith
filter-count p q (r ∷ rs) = ground (arith, filter-count p q rs)

pub filter-IsUnique : (q : Handoff → Bool) (rows : Rows) → IsUnique rows → IsUnique (filter q rows)
unfolding IsUnique
filter-IsUnique q rows u id =
    let fewer = filter-count (has_id id) q rows in let l = u id in omega (arith, fewer)

-- The rows after an addition are those before it, or those written with a row of a new id.
pub add_row-has {κ} :
    (P : Rows → Type κ) (host : Host) (e : Handoff) (rows : Rows)
    → P rows
    → (any (has_id e.handoff_id) rows ≡ false → P (written (rows ++ e ∷ [])))
    → P (add_row host e rows).1
unfolding add_row
add_row-has P host e rows u v =
    choose (is_misconfigured host.kernel) host.is_readable (any (has_id e.handoff_id) rows) refl
      host.is_writable
  where
    choose :
        (m r dup : Bool)
        → any (has_id e.handoff_id) rows ≡ dup
        → (w : Bool)
        → P
            (if m
              then (err Fault.kernel_misconfigured, rows)
              else if not r
              then (err (failure host), rows)
              else if dup
              then mirrored host (err Fault.already_exists) rows
              else if not w
              then (err (failure host), rows)
              else mirrored host (ok e) (written (rows ++ e ∷ []))).1
    choose true r dup h w = u
    choose false false dup h w = u
    choose false true true h w = u
    choose false true false h false = u
    choose false true false h true = v h

pub add_row-IsUnique :
    (host : Host) (e : Handoff) (rows : Rows) → IsUnique rows → IsUnique (add_row host e rows).1
add_row-IsUnique host e rows u =
    add_row-has IsUnique host e rows u
      (λ h. filter-IsUnique is_plain (rows ++ e ∷ []) (added-IsUnique rows e h u))

abbrev pub tried :
    {A : Type 0}
    → Bool
    → Bool
    → Bool
    → Fault
    → Fault
    → Fault
    → Result Fault A
    → Rows
    → Rows
    → Result Fault A × Rows
tried a b c f g k result rows after =
    if a
    then (err f, rows)
    else if b
    then (err g, rows)
    else if c
    then (err k, rows)
    else (result, after)

-- The rows after a change of status or a removal are those before it or the changed ones.
pub tried-has {κ} :
    {A : Type 0} (P : Rows → Type κ) (a b c : Bool) (f g k : Fault) (result : Result Fault A)
    (rows after : Rows)
    → P rows
    → P after
    → P (tried a b c f g k result rows after).1
tried-has P true b c f g k result rows after h m = h
tried-has P false true c f g k result rows after h m = h
tried-has P false false true f g k result rows after h m = h
tried-has P false false false f g k result rows after h m = m

pub tried-made :
    (a b c : Bool) (f g k : Fault) (fails changed : Bool) (rows after : Rows)
    → (tried a b c f g k (if fails then err Fault.unmirrored else ok changed) rows after).0
      ≡ ok true
    → (changed ≡ true)
      × ((tried a b c f g k (if fails then err Fault.unmirrored else ok changed) rows after).1
          ≡ after)
tried-made true b c f g k m changed rows after h = cc
tried-made false true c f g k m changed rows after h = cc
tried-made false false true f g k m changed rows after h = cc
tried-made false false false f g k true changed rows after h = cc
tried-made false false false f g k false true rows after h = (refl, refl)
tried-made false false false f g k false false rows after h = cc

pub swap_status-count :
    (id expect to now_utc note : String) (rows : Rows) (other : String)
    → count_where (has_id other) (swap_status id expect to now_utc note rows).1
      ≡ count_where (has_id other) rows
unfolding swap_status changed_row
swap_status-count id expect to now_utc note [] other = refl
swap_status-count id expect to now_utc note (r ∷ rs) other =
    let ih = swap_status-count id expect to now_utc note rs other in
    elim (Bool-cases (has_id id r && str_eq r.status expect)) [
      | inl e ↦ rw e refl
      | inr e ↦ rw (e, ih) refl
    ]

abbrev pub is_in : String → String → Handoff → Bool
is_in id status r = has_id id r && str_eq r.status status

-- No row of this id has this status.
pub swap_status-miss :
    (id expect to now_utc note : String) (rows : Rows)
    → any (is_in id expect) rows ≡ false
    → (swap_status id expect to now_utc note rows).0 ≡ false
unfolding swap_status
swap_status-miss id expect to now_utc note [] h = refl
swap_status-miss id expect to now_utc note (r ∷ rs) h =
    let e : is_in id expect r ≡ false = ground arith in
    let k : any (is_in id expect) rs ≡ false = ground arith in
    rw e (swap_status-miss id expect to now_utc note rs k)

none-in :
    (id status : String) (rows : Rows)
    → count_where (has_id id) rows ≡ 0
    → any (is_in id status) rows ≡ false
none-in id status [] h = refl
none-in id status (r ∷ rs) h = ground (arith, none-in id status rs)

not_same : (a b : String) → a ≢ b → str_eq b a ≡ false
not_same a b h = elim (Bool-cases (str_eq b a)) [
  | inl e ↦ absurd (h (sym ((eq_iff b a).0 e)))
  | inr e ↦ e
]

moved_head :
    (id status other to : String) (r : Handoff)
    → has_id other r ≡ true
    → (str_eq other id && str_eq to status) ≡ false
    → (has_id id r && str_eq to status) ≡ false
moved_head id status other to r h n = elim (Bool-cases (has_id id r)) [
  | inl g ↦
      (let same = sym ((eq_iff r.handoff_id other).0 h) ∙ (eq_iff r.handoff_id id).0 g in
        let k : str_eq other id ≡ true = (eq_iff other id).1 same in ground arith)
  | inr g ↦ rw g refl
]

abbrev mark : Rows → Bool × Rows
mark rows = (true, rows)

abbrev skip_row : Handoff → Bool × Rows → Bool × Rows
skip_row r rest = (rest.0, r ∷ rest.1)

pick-second :
    (b : Bool) (rows : Rows) (rest : Bool × Rows) (r : Handoff)
    → b ≡ false
    → (if b then mark rows else skip_row r rest).0 ≡ true
    → rest.0 ≡ true
pick-second true rows rest r e h = cc
pick-second false rows rest r e h = h

-- A change that was made leaves no row of this id in the status that it expected.
pub swap_status-leaves :
    (id expect to now_utc note : String) (rows : Rows)
    → expect ≢ to
    → count_where (has_id id) rows ≤ 1
    → (swap_status id expect to now_utc note rows).0 ≡ true
    → any (is_in id expect) (swap_status id expect to now_utc note rows).1 ≡ false
unfolding swap_status changed_row
swap_status-leaves id expect to now_utc note [] n u h = refl
swap_status-leaves id expect to now_utc note (r ∷ rs) n u h =
    elim (Bool-cases (is_in id expect r)) [
      | inl e ↦
          (let here : has_id id r ≡ true = ground arith in
            let alone : count_where (has_id id) rs ≡ 0 = ground arith in
            rw e (rw (here, not_same expect to n, none-in id expect rs alone) refl))
      | inr e ↦
          (let fewer : count_where (has_id id) rs ≤ 1 = ground arith in
            let later : (swap_status id expect to now_utc note rs).0 ≡ true =
              pick-second _ (changed_row expect to now_utc note r ∷ rs)
                (swap_status id expect to now_utc note rs) r e h in
            rw e (rw e (swap_status-leaves id expect to now_utc note rs n fewer later)))
    ]

-- A change of another row, or to another status, makes no such row.
pub swap_status-keeps :
    (id status other expect to now_utc note : String) (rows : Rows)
    → (str_eq other id && str_eq to status) ≡ false
    → any (is_in id status) rows ≡ false
    → any (is_in id status) (swap_status other expect to now_utc note rows).1 ≡ false
unfolding swap_status changed_row
swap_status-keeps id status other expect to now_utc note [] n h = refl
swap_status-keeps id status other expect to now_utc note (r ∷ rs) n h =
    let first : is_in id status r ≡ false = ground arith in
    let rest : any (is_in id status) rs ≡ false = ground arith in
    elim (Bool-cases (is_in other expect r)) [
      | inl e ↦
          (let there : has_id other r ≡ true = ground arith in
            let head = moved_head id status other to r there n in rw e (rw (head, rest) refl))
      | inr e ↦ rw e (rw first (swap_status-keeps id status other expect to now_utc note rs n rest))
    ]
