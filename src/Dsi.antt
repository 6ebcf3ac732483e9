-- ===== src/Dsi.antt =====
-- internal/dsi: the framing protocol under AFP.
pub mod Header
pub mod Options
pub mod Conn
pub mod Setup
