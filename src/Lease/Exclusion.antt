-- ===== src/Lease/Exclusion.antt =====
-- Who holds a lease while it lives, and who can have it once it has expired (lease.py, lines 44-113).
use cc_suite.Prelude.{
  ℕ, ◌≤◌, ◌≡◌, refl, sym, ap, ◌∙◌, subst, Bool, true, false, not, ◌&&◌, ◌||◌, Option, none, some,
  List, [], ◌∷◌, String, str_eq, ltb, leb, err, all, Bool-cases, inl, inr, arith, eq_iff,
}
use cc_suite.Lease.Table.{
  LeaseHandle, not_acquired, lost, LeaseRow, Leases, is_key, set_row, acquire, upsert, is_held,
  renew, renew_row, release,
}
use cc_suite.Lease.Tokens.{Operation, acquires, renews, releases, after_call, after_calls}

-- A call that neither comes after the row's expiry nor uses a handle of the row.
unfoldable pub is_outside : String → String → LeaseRow → Operation → Bool
unfolding is_held
is_outside tenant key row (acquires t k owner ttl now) =
    not (is_key tenant key t k) || leb now row.expires_at
is_outside tenant key row (renews h ttl now) =
    not (is_key tenant key h.tenant_id h.resource_key && is_held h (some row))
is_outside tenant key row (releases h) =
    not (is_key tenant key h.tenant_id h.resource_key && is_held h (some row))

pub key-eq : (tenant key t k : String) → is_key tenant key t k ≡ true → (t ≡ tenant) × (k ≡ key)
key-eq tenant key t k h =
    let e : str_eq t tenant ≡ true = ground arith in
    let f : str_eq k key ≡ true = ground arith in ((eq_iff t tenant).0 e, (eq_iff k key).0 f)

pub key_refl : (t k : String) → is_key t k t k ≡ true
key_refl t k =
    let e : str_eq t t ≡ true = (eq_iff t t).1 refl in
    let f : str_eq k k ≡ true = (eq_iff k k).1 refl in rw (e, f) refl

key-sym : (tenant key t k : String) → is_key tenant key t k ≡ false → is_key t k tenant key ≡ false
key-sym tenant key t k h = elim (Bool-cases (is_key t k tenant key)) [
  | inl e ↦
      (let (x, y) = key-eq t k tenant key e in
        let same : is_key tenant key t k ≡ true = rw (sym x, sym y) (key_refl tenant key) in cc)
  | inr e ↦ e
]

pub set_row-here :
    (t k : String) (row : Option LeaseRow) (rows : String → String → Option LeaseRow)
    → set_row t k row rows t k ≡ row
unfolding set_row
set_row-here t k row rows = rw (key_refl t k) refl

pub set_row-elsewhere :
    (tenant key t k : String) (row : Option LeaseRow) (rows : String → String → Option LeaseRow)
    → is_key tenant key t k ≡ false
    → set_row tenant key row rows t k ≡ rows t k
unfolding set_row
set_row-elsewhere tenant key t k row rows h = rw h refl

pub upsert-elsewhere :
    (tenant key owner t k : String) (ttl now : ℕ) (o : Option LeaseRow) (s : Leases)
    → is_key tenant key t k ≡ false
    → (upsert tenant key owner ttl now o s).1.rows t k ≡ s.rows t k
unfolding upsert
upsert-elsewhere tenant key owner t k ttl now none s h = set_row-elsewhere tenant key t k _ s.rows h
upsert-elsewhere tenant key owner t k ttl now (some row) s h =
    elim (Bool-cases (ltb row.expires_at now)) [
      | inl e ↦ rw e (set_row-elsewhere tenant key t k _ s.rows h)
      | inr e ↦ rw e refl
    ]

-- An `acquire` of a live lease fails and leaves the rows.
pub upsert-live :
    (tenant key owner : String) (ttl now : ℕ) (row : LeaseRow) (s : Leases)
    → now ≤ row.expires_at
    → ((upsert tenant key owner ttl now (some row) s).0 ≡ err not_acquired)
      × ((upsert tenant key owner ttl now (some row) s).1.rows ≡ s.rows)
unfolding upsert
upsert-live tenant key owner ttl now row s h =
    let e : ltb row.expires_at now ≡ false = ground arith in (rw e refl, rw e refl)

renew_row-elsewhere :
    (h : LeaseHandle) (t k : String) (ttl now : ℕ) (o : Option LeaseRow) (s : Leases)
    → is_key h.tenant_id h.resource_key t k ≡ false
    → (renew_row h ttl now o s).1.rows t k ≡ s.rows t k
unfolding renew_row
renew_row-elsewhere h t k ttl now none s e = refl
renew_row-elsewhere h t k ttl now (some row) s e =
    elim (Bool-cases (is_held h (some row) && ltb now row.expires_at)) [
      | inl f ↦ rw f (set_row-elsewhere h.tenant_id h.resource_key t k _ s.rows e)
      | inr f ↦ rw f refl
    ]

pub renew_row-other :
    (h : LeaseHandle) (ttl now : ℕ) (o : Option LeaseRow) (s : Leases)
    → is_held h o ≡ false
    → ((renew_row h ttl now o s).0 ≡ err lost) × ((renew_row h ttl now o s).1 ≡ s)
unfolding renew_row
renew_row-other h ttl now none s e = (refl, refl)
renew_row-other h ttl now (some row) s e = (rw e refl, rw e refl)

release-elsewhere :
    (h : LeaseHandle) (t k : String) (s : Leases)
    → is_key h.tenant_id h.resource_key t k ≡ false
    → (release h s).rows t k ≡ s.rows t k
unfolding release
release-elsewhere h t k s e = elim (Bool-cases (is_held h (s.rows h.tenant_id h.resource_key))) [
  | inl f ↦ rw f (set_row-elsewhere h.tenant_id h.resource_key t k _ s.rows e)
  | inr f ↦ rw f refl
]

pub release-other :
    (h : LeaseHandle) (s : Leases)
    → is_held h (s.rows h.tenant_id h.resource_key) ≡ false
    → release h s ≡ s
unfolding release
release-other h s e = rw e refl

-- The key of a call that is a row's key.
pub rows-same :
    (tenant key t k : String) (s : Leases)
    → is_key tenant key t k ≡ true
    → s.rows t k ≡ s.rows tenant key
rows-same tenant key t k s e = let (x, y) = key-eq tenant key t k e in rw (x, y) refl

acquire-keeps :
    (tenant key t k owner : String) (ttl now : ℕ) (row : LeaseRow) (s : Leases)
    → s.rows tenant key ≡ some row
    → is_key tenant key t k ≡ true
    → now ≤ row.expires_at
    → (upsert t k owner ttl now (s.rows t k) s).1.rows tenant key ≡ some row
acquire-keeps tenant key t k owner ttl now row s h e l =
    let live =
      subst (λ o. (upsert t k owner ttl now o s).1.rows ≡ s.rows)
        (sym (rows-same tenant key t k s e ∙ h)) (upsert-live t k owner ttl now row s l).1 in
    ap (λ rows. rows tenant key) live ∙ h

not_held :
    (h : LeaseHandle) (tenant key : String) (row : LeaseRow) (s : Leases)
    → s.rows tenant key ≡ some row
    → is_key tenant key h.tenant_id h.resource_key ≡ true
    → is_held h (some row) ≡ false
    → is_held h (s.rows h.tenant_id h.resource_key) ≡ false
not_held h tenant key row s r e f =
    ap (is_held h) (rows-same tenant key h.tenant_id h.resource_key s e ∙ r) ∙ f

call-keeps :
    (op : Operation) (tenant key : String) (row : LeaseRow) (s : Leases)
    → s.rows tenant key ≡ some row
    → is_outside tenant key row op ≡ true
    → (after_call op s).rows tenant key ≡ some row
unfolding acquire renew is_outside
call-keeps (acquires t k owner ttl now) tenant key row s h o =
    elim (Bool-cases (is_key tenant key t k)) [
      | inl e ↦ acquire-keeps tenant key t k owner ttl now row s h e (ground arith)
      | inr e ↦
          upsert-elsewhere t k owner tenant key ttl now (s.rows t k) s (key-sym tenant key t k e)
          ∙ h
    ]
call-keeps (renews old ttl now) tenant key row s h o =
    elim (Bool-cases (is_key tenant key old.tenant_id old.resource_key)) [
      | inl e ↦
          (let other = not_held old tenant key row s h e (ground arith) in
            ap (λ x. x.rows tenant key) (renew_row-other old ttl now _ s other).1 ∙ h)
      | inr e ↦
          renew_row-elsewhere old tenant key ttl now _ s
            (key-sym tenant key old.tenant_id old.resource_key e)
          ∙ h
    ]
call-keeps (releases old) tenant key row s h o =
    elim (Bool-cases (is_key tenant key old.tenant_id old.resource_key)) [
      | inl e ↦
          (let other = not_held old tenant key row s h e (ground arith) in
            ap (λ x. x.rows tenant key) (release-other old s other) ∙ h)
      | inr e ↦
          release-elsewhere old tenant key s (key-sym tenant key old.tenant_id old.resource_key e)
          ∙ h
    ]

calls-keep :
    (ops : List Operation) (tenant key : String) (row : LeaseRow) (s : Leases)
    → s.rows tenant key ≡ some row
    → all (is_outside tenant key row) ops ≡ true
    → (after_calls ops s).rows tenant key ≡ some row
calls-keep [] tenant key row s h o = h
calls-keep (op ∷ ops) tenant key row s h o =
    let here : is_outside tenant key row op ≡ true = ground arith in
    let rest : all (is_outside tenant key row) ops ≡ true = ground arith in
    calls-keep ops tenant key row (after_call op s) (call-keeps op tenant key row s h here) rest

-- When a row stands for a tenant and a resource: after any calls of other callers, of which no
-- `acquire` of that resource comes after the row's expiry and no `renew` or `release` uses a handle
-- of the row, the row stands as it is, and an `acquire` of that resource by anyone, up to the
-- instant of the expiry, raises LeaseNotAcquired and leaves the row.
pub live_lease_excludes :
    (ops : List Operation) (tenant key owner : String) (ttl now : ℕ) (row : LeaseRow) (s : Leases)
    → s.rows tenant key ≡ some row
    → all (is_outside tenant key row) ops ≡ true
    → now ≤ row.expires_at
    → let r = acquire tenant key owner ttl now (after_calls ops s) in
      (r.0 ≡ err not_acquired)
      × ((after_calls ops s).rows tenant key ≡ some row)
      × (r.1.rows tenant key ≡ some row)
unfolding acquire
live_lease_excludes ops tenant key owner ttl now row s h o l =
    let kept = calls-keep ops tenant key row s h o in
    let later = after_calls ops s in
    let refused =
      subst (λ x. (upsert tenant key owner ttl now x later).0 ≡ err not_acquired) (sym kept)
        (upsert-live tenant key owner ttl now row later l).0 in
    (
      refused,
      kept,
      acquire-keeps tenant key tenant key owner ttl now row later kept (key_refl tenant key) l,
    )
