-- ===== src/Qualification.antt =====
-- fleet_kernel/eval_plane/qualification.py: waivers, the issued qualification and its staleness.
pub mod Waivers
pub mod Cover
pub mod Issue
pub mod Issued
pub mod Persist
pub mod Storable
pub mod Staleness
mod Tests
