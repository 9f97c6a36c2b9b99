-- ===== src/Mailboxes.antt =====
-- backends/imap/mailbox_map.py and types/mailbox.py.
pub mod Mapping
pub mod Split
pub mod Hierarchy
pub mod Sweeping
pub mod Get
pub mod Changes
pub mod Query
pub mod Set
mod Examples
