-- ===== src/Effects.antt =====
-- fleet_kernel/eval_plane/effect_control.py: the wrappers around the external effects of a target
-- under evaluation, the ledger of what it attempted, and the grade of that ledger.
pub mod Redact
pub mod Clean
pub mod Ledger
pub mod Calls
pub mod Evidence
pub mod Graded
pub mod Install
pub mod Restore
pub mod Evolution
pub mod Enforced
pub mod Attempt
mod Tests
