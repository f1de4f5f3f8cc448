-- ===== src/Stats.antt =====
-- Message counters, apps/server/src/stats.rs and workspace_stats.rs.
--
-- `Schema` has the tables, `Counting` the count of one event, `Worker` the rounds over the outbox,
-- `Exact` what the counters agree with, and `Reads` the answers to a user.
pub mod Schema
pub mod Counting
pub mod Worker
pub mod Exact
pub mod Reads
mod Tests
