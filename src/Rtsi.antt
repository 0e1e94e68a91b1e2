-- ===== src/Rtsi.antt =====
-- The real-time interface: source/Rtsi and include/Rtsi.
pub mod Value
pub mod Table
pub mod Recipe
pub mod Client
pub mod Io
