-- ===== src/Authority.antt =====
-- fleet_kernel/m8/authority.py: the action-authority matrix, the evidence that a request carries, and
-- the decision on an action.
pub mod Types
pub mod Trust
pub mod Matrix
pub mod Gate
pub mod Require
mod Tests
