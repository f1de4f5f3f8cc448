-- ===== src/Workspaces.antt =====
-- Workspaces: roles, members, channels, invites and the audit log (apps/server/src/workspaces.rs).
pub mod Role
pub mod Schema
pub mod Access
pub mod Statements
pub mod Members
pub mod Moderation
pub mod Channels
pub mod Overrides
pub mod Invites
pub mod Commits
pub mod Requests
pub mod Healing
pub mod Listings
pub mod Sample
mod Tests
