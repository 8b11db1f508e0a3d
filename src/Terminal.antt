-- ===== src/Terminal.antt =====
-- The web terminal, main/flash_data/terminal/script.js.
pub mod World
pub mod View
pub mod Json
pub mod Session
pub mod Utf8
pub mod Traffic
pub mod Events
pub mod Messages
pub mod Invariant
pub mod Typing
pub mod Echo
pub mod Silent
pub mod Offline
pub mod Subscription
pub mod Stale
pub mod Reconnect
pub mod Exceptions
pub mod Samples
pub mod Tests
