-- ===== src/Web.antt =====
-- internal/web: the WebSocket connections of the devices.
pub mod Frame
pub mod Sessions
pub mod Login
pub mod Writer
pub mod PayloadCodec
pub mod Calls
pub mod Devices
pub mod Monitor
pub mod Tokens
pub mod Reader
mod Tests
mod HandlerTests
