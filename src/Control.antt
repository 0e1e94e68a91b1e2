-- ===== src/Control.antt =====
-- The ports to which the robot's control script connects: source/Control and include/Control.
pub mod Words
pub mod Frames
pub mod Reads
pub mod Feedback
pub mod Commands
pub mod Sender
mod Tests
