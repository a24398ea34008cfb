-- ===== src/App.antt =====
-- internal/app: what the server does around the hub.
pub mod Totals
pub mod Metrics
pub mod Groups
pub mod Invoke
pub mod Presence
pub mod Clients
pub mod Persist
mod Tests
