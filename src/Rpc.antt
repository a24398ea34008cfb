-- ===== src/Rpc.antt =====
-- internal/rpc/hub.go: the hub that brings calls to devices.
pub mod Job
pub mod Queue
pub mod State
pub mod Hub
pub mod Dispatch
pub mod Results
pub mod Ops
pub mod Invoke
pub mod Poll
pub mod Goroutine
mod Tests
