-- ===== src/Messaging.antt =====
-- Conversations, messages, read markers and the outbox, apps/server/src/messaging.rs.
--
-- `Schema` has the tables, `Conversations` the creation of conversations and the membership gate,
-- `Sending` the sends, the read markers and the history, `Outbox` the claims and the worker,
-- and `Directory` the list of conversations.
pub mod Schema
pub mod Conversations
pub mod Sending
pub mod Outbox
pub mod Directory
pub mod Commits
pub mod Sample
mod Tests
