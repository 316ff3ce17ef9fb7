-- ===== src/Log.antt =====
-- Logs: frontend/public/components/utils/line-buffer.ts and resource-log.jsx there.
pub mod Buffer
pub mod Lines
pub mod Stream
pub mod Behind
pub mod Bounds
mod Tests
