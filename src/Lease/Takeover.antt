-- ===== src/Lease/Takeover.antt =====
-- What becomes of an expired lease and of its former holder (lease.py, lines 44-104).
use cc_suite.Prelude.{ℕ, ◌≤◌, ◌<◌, ◌≡◌, Option, some, String}
use cc_suite.Lease.Table.{LeaseHandle, LeaseRow, Leases}

abbrev AreIssued : (String → String → Option LeaseRow) → ℕ → Type 0
AreIssued rows last =
    (t k : String) (row : LeaseRow) → rows t k ≡ some row → row.fencing_token ≤ last

-- No row has a token that the sequence did not give out.
unfoldable pub IsIssued : Leases → Type 0
IsIssued s = AreIssued s.rows s.last_token

abbrev handle_of : String → String → String → ℕ → LeaseHandle
handle_of tenant key owner token = record {
  tenant_id = tenant;
  resource_key = key;
  owner_token = owner;
  fencing_token = token;
}

-- The sequence has given out a token, and any row of the key has a greater one.
record IsPast (t k : String) (token : ℕ) (s : Leases) : Type 0 where
  pub given : token ≤ s.last_token
  pub newer : (row : LeaseRow) → s.rows t k ≡ some row → token < row.fencing_token
