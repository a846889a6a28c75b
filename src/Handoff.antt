-- ===== src/Handoff.antt =====
-- scripts/handoff_ledger.py: the ledger of handoffs, the requests that open its rows, and the changes of
-- a row's status.
pub mod Entry
pub mod Rows
pub mod Deadlines
pub mod Requests
pub mod Opened
pub mod Passed
pub mod Once
pub mod Changes
mod Tests
