-- ===== src/Auth.antt =====
-- Accounts, devices and sessions, apps/server/src/auth.rs, password.rs and session_management.rs.
--
-- `Schema` has the tables and the calls of libraries, `Accounts` the registration, `Sessions` login,
-- logout and authentication, `Management` the list of sessions and their revocation. `Calls` has the
-- calls that write as one step relation, `Revocation`, `Tokens` and `Logins` what tokens and sessions
-- do under it, and `Sample` libraries for the tests.
pub mod Schema
pub mod Accounts
pub mod Sessions
pub mod Management
pub mod Calls
pub mod Revocation
pub mod Tokens
pub mod Logins
pub mod Sample
mod Tests
