-- ===== src/Gateway.antt =====
-- The realtime gateway, apps/server/src/gateway.rs.
--
-- `Schema` has the frames and the state that the gateway reads, `Visibility` its live checks,
-- `Replay` the scan of missed events, `Identify` the wait for the first frame, and `Pump` the loop
-- of a connection.
pub mod Schema
pub mod Visibility
pub mod Replay
pub mod Identify
pub mod Pump
pub mod Revocation
mod Tests
