-- ===== src/Driver.antt =====
-- EliteDriver (source/Elite/EliteDriver.cpp).
pub mod Template
pub mod Clean
pub mod OnePass
pub mod Braces
pub mod Rendering
pub mod Session
pub mod Forward
pub mod Stopping
pub mod Serial
pub mod Handles
mod Tests
