-- ===== src/Gateway.antt =====
-- The WebSocket server of the firmware, ws_server/src/ws_server.c.
pub mod State
pub mod Response
pub mod Registry
pub mod Send
pub mod Intake
pub mod Serve
pub mod Forward
pub mod Respond
pub mod Quiet
pub mod Invariant
pub mod Throttle
pub mod Routing
pub mod Broadcast
pub mod Deletion
pub mod Unrouted
pub mod Acceptance
pub mod Registration
pub mod Serving
pub mod Group
pub mod Handover
pub mod Exchange
pub mod Samples
pub mod Tests
