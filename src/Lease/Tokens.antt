-- ===== src/Lease/Tokens.antt =====
-- The order of the fencing tokens over the calls of any callers, and what a fenced table does with an
-- old one (lease.py, lines 44-135).
use cc_suite.Prelude.{
  ℕ, suc, ◌≤◌, ◌<◌, ◌≡◌, refl, subst, Bool, true, false, ◌&&◌, Option, none, some, List, [], ◌∷◌,
  String, str_eq, ltb, ok, All, Bool-cases, inl, inr, arith,
}
use cc_suite.Lease.Table.{
  LeaseHandle, LeaseRow, Leases, acquire, upsert, is_held, renew, renew_row, release, Fenced,
  is_written, write_row, fenced_write,
}

pub data Operation : Type 0 where
  acquires : String → String → String → ℕ → ℕ → Operation
  renews : LeaseHandle → ℕ → ℕ → Operation
  releases : LeaseHandle → Operation

-- The table after one call, and after the calls of any callers one after another.
abbrev pub after_call : Operation → Leases → Leases
after_call (acquires tenant key owner ttl now) s = (acquire tenant key owner ttl now s).1
after_call (renews h ttl now) s = (renew h ttl now s).1
after_call (releases h) s = release h s

abbrev pub after_calls : List Operation → Leases → Leases
after_calls [] s = s
after_calls (op ∷ ops) s = after_calls ops (after_call op s)

-- No lease, and a sequence that gave out no value.
abbrev pub no_leases : Leases
no_leases = record { rows = λ t k. none; last_token = 0 }

upsert-last_token :
    (tenant key owner : String) (ttl now : ℕ) (o : Option LeaseRow) (s : Leases)
    → s.last_token ≤ (upsert tenant key owner ttl now o s).1.last_token
unfolding upsert
upsert-last_token tenant key owner ttl now none s = omega arith
upsert-last_token tenant key owner ttl now (some row) s = ground arith

renew_row-last_token :
    (h : LeaseHandle) (ttl now : ℕ) (o : Option LeaseRow) (s : Leases)
    → (renew_row h ttl now o s).1.last_token ≡ s.last_token
unfolding renew_row
renew_row-last_token h ttl now none s = refl
renew_row-last_token h ttl now (some row) s =
    elim (Bool-cases (is_held h (some row) && ltb now row.expires_at)) [
      | inl e ↦ rw e refl
      | inr e ↦ rw e refl
    ]

release-last_token : (h : LeaseHandle) (s : Leases) → (release h s).last_token ≡ s.last_token
unfolding release
release-last_token h s = elim (Bool-cases (is_held h (s.rows h.tenant_id h.resource_key))) [
  | inl e ↦ rw e refl
  | inr e ↦ rw e refl
]

pub call-last_token : (op : Operation) (s : Leases) → s.last_token ≤ (after_call op s).last_token
unfolding acquire renew
call-last_token (acquires tenant key owner ttl now) s =
    upsert-last_token tenant key owner ttl now (s.rows tenant key) s
call-last_token (renews h ttl now) s =
    omega (arith, renew_row-last_token h ttl now (s.rows h.tenant_id h.resource_key) s)
call-last_token (releases h) s = omega (arith, release-last_token h s)

calls-last_token :
    (ops : List Operation) (s : Leases) → s.last_token ≤ (after_calls ops s).last_token
calls-last_token [] s = omega arith
calls-last_token (op ∷ ops) s =
    omega (arith, call-last_token op s, calls-last_token ops (after_call op s))

pub upsert-token :
    (tenant key owner : String) (ttl now : ℕ) (o : Option LeaseRow) (s : Leases) {h : LeaseHandle}
    → (upsert tenant key owner ttl now o s).0 ≡ ok h
    → (s.last_token < h.fencing_token)
      × (h.fencing_token ≡ (upsert tenant key owner ttl now o s).1.last_token)
unfolding upsert
upsert-token tenant key owner ttl now none s {h} e =
    let k : suc s.last_token ≡ h.fencing_token = cc in (omega arith, omega arith)
upsert-token tenant key owner ttl now (some row) s {h} e = ground arith

acquire-token :
    (tenant key owner : String) (ttl now : ℕ) (s : Leases) {h : LeaseHandle}
    → (acquire tenant key owner ttl now s).0 ≡ ok h
    → (s.last_token < h.fencing_token)
      × (h.fencing_token ≡ (acquire tenant key owner ttl now s).1.last_token)
unfolding acquire
acquire-token tenant key owner ttl now s e =
    upsert-token tenant key owner ttl now (s.rows tenant key) s e

pub record Write {ℓ} (A : Type ℓ) : Type ℓ where
  pub id : String
  pub token : ℕ
  pub set : A → A

≤-trans : {a b c : ℕ} → a ≤ b → b ≤ c → a ≤ c
≤-trans h k = omega arith

not_written :
    (b : Bool) (last token old : ℕ)
    → old < token
    → (b ≡ true → token ≤ last)
    → (b && ltb last old) ≡ false
not_written true last token old l h = let k = h refl in ground arith
not_written false last token old l h = refl

module _ {ℓ} {A : Type ℓ} where
  abbrev pub after_write : Write A → List (Fenced A) → List (Fenced A)
  after_write w table = (fenced_write w.id w.token w.set table).1

  abbrev pub after_writes : List (Write A) → List (Fenced A) → List (Fenced A)
  after_writes [] table = table
  after_writes (w ∷ ws) table = after_writes ws (after_write w table)

  -- Every row of this id has seen the token or a later one.
  abbrev HasSeen : String → ℕ → List (Fenced A) → Type 0
  HasSeen id token table =
      All (λ row. str_eq row.id id ≡ true → token ≤ row.last_fencing_token) table

  write_row-token :
      (id : String) (token : ℕ) (set : A → A) (row : Fenced A)
      → ((write_row id token set row).id ≡ row.id)
        × (row.last_fencing_token ≤ (write_row id token set row).last_fencing_token)
        × (str_eq row.id id ≡ true → token ≤ (write_row id token set row).last_fencing_token)
  unfolding write_row is_written
  write_row-token id token set row = elim (Bool-cases (is_written id token row)) [
    | inl e ↦ rw e (refl, ground arith, λ h. omega arith)
    | inr e ↦ rw e (refl, omega arith, λ h. ground arith)
  ]

  write-HasSeen :
      (id : String) (token : ℕ) (set : A → A) (table : List (Fenced A))
      → HasSeen id token (fenced_write id token set table).1
  unfolding fenced_write
  write-HasSeen id token set [] = tt
  write-HasSeen id token set (row ∷ rows) =
      let (same, _, seen) = write_row-token id token set row in
      (λ h. seen (subst (λ x. str_eq x id ≡ true) same h), write-HasSeen id token set rows)

  write-keeps :
      (id : String) (token : ℕ) (w : Write A) (table : List (Fenced A))
      → HasSeen id token table
      → HasSeen id token (after_write w table)
  unfolding fenced_write
  write-keeps id token w [] h = tt
  write-keeps id token w (row ∷ rows) (h, hs) =
      let (same, grown, _) = write_row-token w.id w.token w.set row in
      (
        λ e. ≤-trans (h (subst (λ x. str_eq x id ≡ true) same e)) grown,
        write-keeps id token w rows hs,
      )

  writes-keep :
      (id : String) (token : ℕ) (ws : List (Write A)) (table : List (Fenced A))
      → HasSeen id token table
      → HasSeen id token (after_writes ws table)
  writes-keep id token [] table h = h
  writes-keep id token (w ∷ ws) table h =
      writes-keep id token ws (after_write w table) (write-keeps id token w table h)

  seen-refuses :
      (id : String) (token old : ℕ) (set : A → A) (table : List (Fenced A))
      → old < token
      → HasSeen id token table
      → ((fenced_write id old set table).0 ≡ false) × ((fenced_write id old set table).1 ≡ table)
  unfolding fenced_write write_row is_written
  seen-refuses id token old set [] l h = (refl, refl)
  seen-refuses id token old set (row ∷ rows) l (h, hs) =
      let (none_written, same) = seen-refuses id token old set rows l hs in
      let e : (str_eq row.id id && ltb row.last_fencing_token old) ≡ false =
        not_written (str_eq row.id id) row.last_fencing_token token old l h in
      (rw (e, none_written) refl, rw (e, same) refl)

-- When a caller acquired a lease, and after any calls of any callers a lease of any resource was
-- acquired once more: the second token is greater. Once the second holder tried to write rows of an
-- id of a fenced table, and after any further writes to that table by any holders, a write of the
-- first holder to that id returns False and leaves the table as it is.
pub stale_writer_is_refused {ℓ} :
    {A : Type ℓ} (t1 k1 o1 t2 k2 o2 : String) (ttl1 now1 ttl2 now2 : ℕ) (start : Leases)
    (ops : List Operation) {first second : LeaseHandle} (id : String) (set1 set2 : A → A)
    (ws : List (Write A)) (table : List (Fenced A))
    → (acquire t1 k1 o1 ttl1 now1 start).0 ≡ ok first
    → (acquire t2 k2 o2 ttl2 now2 (after_calls ops (acquire t1 k1 o1 ttl1 now1 start).1)).0
      ≡ ok second
    → let later = after_writes ws (fenced_write id second.fencing_token set2 table).1 in
      (first.fencing_token < second.fencing_token)
      × ((fenced_write id first.fencing_token set1 later).0 ≡ false)
      × ((fenced_write id first.fencing_token set1 later).1 ≡ later)
stale_writer_is_refused t1 k1 o1 t2 k2 o2 ttl1 now1 ttl2 now2 start ops {first} {second} id set1
      set2 ws table e f =
    let s1 = (acquire t1 k1 o1 ttl1 now1 start).1 in
    let issued = acquire-token t1 k1 o1 ttl1 now1 start e in
    let issued_later = acquire-token t2 k2 o2 ttl2 now2 (after_calls ops s1) f in
    let newer : first.fencing_token < second.fencing_token =
      omega (arith, issued, issued_later, calls-last_token ops s1) in
    let seen = write-HasSeen id second.fencing_token set2 table in
    let (refused, same) =
      seen-refuses id second.fencing_token first.fencing_token set1 _ newer
        (writes-keep id second.fencing_token ws _ seen) in
    (newer, refused, same)
