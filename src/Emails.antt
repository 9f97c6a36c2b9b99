-- ===== src/Emails.antt =====
-- types/email.py and backends/imap/email_map.py.
pub mod Filter
pub mod Sort
pub mod Ids
pub mod Update
pub mod Changes
pub mod Query
mod Examples
