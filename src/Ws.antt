-- ===== src/Ws.antt =====
-- frontend/public/module/ws-factory.js: the reconnecting, buffering WebSocket wrapper.
pub mod Defs
pub mod Run
pub mod Backoff
pub mod Attempts
pub mod Buffer
pub mod Valid
pub mod Destroy
pub mod Stale
mod Tests
