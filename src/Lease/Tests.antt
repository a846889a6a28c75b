-- ===== src/Lease/Tests.antt =====
-- The theorems on lease.py at concrete tables.
use cc_suite.Prelude.{ℕ, ◌+◌, ◌<◌, ◌≡◌, refl, false, some, List, [], ◌∷◌, String, err, arith}
use cc_suite.Lease.Table.{
  LeaseHandle, not_acquired, Leases, new_row, acquire, renew, Fenced, fenced_write, upsert, is_held,
  set_row,
}
use cc_suite.Lease.Tokens.{
  Operation, acquires, renews, releases, Write, after_calls, after_writes, no_leases,
  stale_writer_is_refused,
}
use cc_suite.Lease.Exclusion.{is_outside, live_lease_excludes}

abbrev handle : String → ℕ → LeaseHandle
handle owner token = record {
  tenant_id = "t";
  resource_key = "r";
  owner_token = owner;
  fencing_token = token;
}

abbrev account : List (Fenced ℕ)
account = record { id = "a"; content = 10; last_fencing_token = 0 } ∷ []

-- Another resource is leased, and the first lease renewed, before the second owner comes.
abbrev between : List Operation
between = acquires "t" "other" "o" 5 3 ∷ renews (handle "a" 1) 5 4 ∷ []

abbrev late_write : Write ℕ
late_write = record { id = "a"; token = 4; set = λ n. n + 1 }

stale_writer_is_refused_example :
    let later = after_writes (late_write ∷ []) (fenced_write "a" 4 (λ n. n + 2) account).1 in
    (1 < 4)
    × ((fenced_write "a" 1 (λ n. 0) later).0 ≡ false)
    × ((fenced_write "a" 1 (λ n. 0) later).1 ≡ later)
unfolding acquire upsert renew is_held set_row
stale_writer_is_refused_example =
    stale_writer_is_refused "t" "r" "a" "t" "r" "b" 5 0 5 20 no_leases between
      {first = handle "a" 1} {second = handle "b" 4} "a" (λ n. 0) (λ n. n + 2) (late_write ∷ [])
      account refl refl

abbrev leased : Leases
leased = (acquire "t" "r" "a" 5 0 no_leases).1

abbrev outsiders : List Operation
outsiders = acquires "t" "r" "b" 5 4 ∷ releases (handle "b" 2) ∷ acquires "t" "other" "o" 5 9 ∷ []

live_lease_excludes_example :
    let r = acquire "t" "r" "c" 5 5 (after_calls outsiders leased) in
    (r.0 ≡ err not_acquired)
    × ((after_calls outsiders leased).rows "t" "r" ≡ some (new_row "a" 1 0 5))
    × (r.1.rows "t" "r" ≡ some (new_row "a" 1 0 5))
unfolding acquire upsert is_outside is_held set_row
live_lease_excludes_example =
    live_lease_excludes outsiders "t" "r" "c" 5 5 (new_row "a" 1 0 5) leased refl refl (omega arith)

abbrev opened : List Operation
opened = acquires "t" "r" "a" 5 0 ∷ []

-- The new owner releases, and a third one acquires, before the first handle comes back.
abbrev meanwhile : List Operation
meanwhile = releases (handle "b" 3) ∷ acquires "t" "r" "c" 5 8 ∷ []
