-- ===== src/MarkMode.antt =====
-- Mark mode (frontend/src/markMode.ts): a keyboard cursor over the terminal's buffer.
pub mod Terminal
pub mod Motion
pub mod Boundary
pub mod Manager
pub mod Actions
mod Tests
