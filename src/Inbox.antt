-- ===== src/Inbox.antt =====
-- mcp_servers/channel_relay/durable_inbox.py: the cursor-based reader of a role's queue.
pub mod Lines
pub mod Drain
pub mod Position
pub mod Delivery
pub mod Resync
mod Tests
