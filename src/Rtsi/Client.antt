-- ===== src/Rtsi/Client.antt =====
-- RtsiClient (source/Rtsi/RtsiClient.cpp, include/Rtsi/RtsiClient.hpp): the connection, its state,
-- and the packages. The network is a record that says what comes in, how it ends, and how much of
-- each write is taken; the calls of Boost.Asio read and change it.
pub mod Monad
pub mod Receive
pub mod Rounds
pub mod Skip
pub mod Ends
pub mod Requests
pub mod State
pub mod Calls
pub mod Answers
mod Tests
