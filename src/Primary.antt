-- ===== src/Primary.antt =====
-- The primary port: source/Primary and include/Primary.
pub mod Packages
pub mod Port
pub mod Requests
pub mod Exceptions
pub mod Message
pub mod Background
