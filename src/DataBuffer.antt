-- ===== src/DataBuffer.antt =====
-- skynet-1.2.0/service-src/databuffer.h: the bytes that a connection of the gate has received.
pub mod Chunks
pub mod Rounds
pub mod Read
pub mod Package
mod Examples
