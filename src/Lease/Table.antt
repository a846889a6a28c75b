-- ===== src/Lease/Table.antt =====
-- `acquire`, `renew`, `release`, `current_holder` and `fenced_write` (lease.py, lines 29-135). The
-- table of leases holds at most one row for a tenant and a resource, as its unique constraint says,
-- `nextval` is evaluated once for the row to insert and once more for the update, and every call has
-- the time of its transaction. Times and lengths of time are natural numbers of one unit.
use cc_suite.Prelude.{
  ℕ, suc, ◌+◌, Bool, true, false, ◌&&◌, Option, none, some, List, String, str_eq, ltb, ◌==◌,
  if◌then◌else◌, Result, ok, err, any, map,
}

pub record LeaseHandle : Type 0 where
  pub tenant_id : String
  pub resource_key : String
  pub owner_token : String
  pub fencing_token : ℕ

pub data LeaseError : Type 0 where
  not_acquired lost : LeaseError

-- A row of `kernel_leases`.
pub record LeaseRow : Type 0 where
  pub owner_token : String
  pub fencing_token : ℕ
  pub acquired_at : ℕ
  pub expires_at : ℕ

-- The rows, and the last value of `kernel_fencing_seq`.
pub record Leases : Type 0 where
  pub rows : String → String → Option LeaseRow
  pub last_token : ℕ

abbrev pub is_key : String → String → String → String → Bool
is_key tenant key t k = str_eq t tenant && str_eq k key

unfoldable pub set_row :
    String
    → String
    → Option LeaseRow
    → (String → String → Option LeaseRow)
    → String
    → String
    → Option LeaseRow
set_row tenant key row rows t k = if is_key tenant key t k then row else rows t k

-- The row can be written by an `acquire`: there is none, or it has expired.
unfoldable pub is_free : ℕ → Option LeaseRow → Bool
is_free now none = true
is_free now (some row) = ltb row.expires_at now

-- The row that an `acquire` writes.
abbrev pub new_row : String → ℕ → ℕ → ℕ → LeaseRow
new_row owner token now ttl = record {
  owner_token = owner;
  fencing_token = token;
  acquired_at = now;
  expires_at = now + ttl;
}

unfoldable pub upsert :
    String
    → String
    → String
    → ℕ
    → ℕ
    → Option LeaseRow
    → Leases
    → Result LeaseError LeaseHandle × Leases
upsert tenant key owner ttl now none s =
    let token = suc s.last_token in
    (
      ok (record {
        tenant_id = tenant;
        resource_key = key;
        owner_token = owner;
        fencing_token = token;
      }),
      record {
        rows = set_row tenant key (some (new_row owner token now ttl)) s.rows;
        last_token = token;
      },
    )
upsert tenant key owner ttl now (some row) s =
    let token = suc (suc s.last_token) in
    if ltb row.expires_at now
    then (
      ok (record {
        tenant_id = tenant;
        resource_key = key;
        owner_token = owner;
        fencing_token = token;
      }),
      record {
        rows = set_row tenant key (some (new_row owner token now ttl)) s.rows;
        last_token = token;
      },
    )
    else (err not_acquired, record s { last_token = suc s.last_token })

-- `acquire`
unfoldable pub acquire :
    String → String → String → ℕ → ℕ → Leases → Result LeaseError LeaseHandle × Leases
unfolding upsert
acquire tenant key owner ttl now s = upsert tenant key owner ttl now (s.rows tenant key) s

-- The row is the one that a handle stands for.
unfoldable pub is_held : LeaseHandle → Option LeaseRow → Bool
is_held h none = false
is_held h (some row) = str_eq row.owner_token h.owner_token && row.fencing_token == h.fencing_token

unfoldable pub renew_row :
    LeaseHandle → ℕ → ℕ → Option LeaseRow → Leases → Result LeaseError LeaseHandle × Leases
renew_row h ttl now none s = (err lost, s)
renew_row h ttl now (some row) s =
    if is_held h (some row) && ltb now row.expires_at
    then (
      ok h,
      record s {
        rows =
            set_row h.tenant_id h.resource_key (some (record row { expires_at = now + ttl }))
              s.rows;
      },
    )
    else (err lost, s)

-- `renew`
unfoldable pub renew : LeaseHandle → ℕ → ℕ → Leases → Result LeaseError LeaseHandle × Leases
unfolding renew_row is_held
renew h ttl now s = renew_row h ttl now (s.rows h.tenant_id h.resource_key) s

-- `release`
unfoldable pub release : LeaseHandle → Leases → Leases
unfolding is_held
release h s =
    if is_held h (s.rows h.tenant_id h.resource_key)
    then record s { rows = set_row h.tenant_id h.resource_key none s.rows }
    else s

-- `current_holder`
abbrev pub current_holder : String → String → Leases → Option LeaseRow
current_holder tenant key s = s.rows tenant key

-- A row of a fenced table, with its content.
pub record Fenced {ℓ} (A : Type ℓ) : Type ℓ where
  pub id : String
  pub content : A
  pub last_fencing_token : ℕ

module _ {ℓ} {A : Type ℓ} where
  -- The rows that the `UPDATE` of `fenced_write` writes.
  unfoldable pub is_written : String → ℕ → Fenced A → Bool
  is_written id token row = str_eq row.id id && ltb row.last_fencing_token token

  unfoldable pub write_row : String → ℕ → (A → A) → Fenced A → Fenced A
  unfolding is_written
  write_row id token set row =
      if is_written id token row
      then record row { content = set row.content; last_fencing_token = token }
      else row

  -- `fenced_write`: whether a row was written, and the table after it.
  unfoldable pub fenced_write : String → ℕ → (A → A) → List (Fenced A) → Bool × List (Fenced A)
  unfolding write_row is_written
  fenced_write id token set table =
      (any (is_written id token) table, map (write_row id token set) table)
