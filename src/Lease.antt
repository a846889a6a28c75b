-- ===== src/Lease.antt =====
-- fleet_kernel/m2/lease.py: leases with an expiry, their fencing tokens and the write that a token
-- fences.
pub mod Table
pub mod Tokens
pub mod Exclusion
pub mod Takeover
mod Tests
