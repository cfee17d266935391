-- ===== src/Socket.antt =====
-- skynet-1.2.0/skynet-src/socket_server.c: the way of a package to a TCP socket, and the slots of sockets.
pub mod State
pub mod Send
pub mod Submit
pub mod Flow
pub mod Shape
pub mod Written
pub mod Line
pub mod Drained
pub mod DrainLow
pub mod Drain
pub mod Queued
pub mod Accept
pub mod Waits
pub mod Give
pub mod Order
pub mod Run
pub mod Server
pub mod Slots
pub mod Fresh
pub mod Close
mod Examples
