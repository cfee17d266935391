-- ===== src/Netpack.antt =====
-- skynet-1.2.0/lualib-src/lua-netpack.c: packages of a length and data, out of what sockets receive.
pub mod Queue
pub mod Filter
pub mod Fifo
pub mod Chains
pub mod Stream
pub mod Taken
pub mod Waiting
pub mod Close
mod Examples
