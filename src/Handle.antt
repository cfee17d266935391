-- ===== src/Handle.antt =====
-- skynet-1.2.0/skynet-src/skynet_handle.c: the table of the services by their handles.
pub mod Names
pub mod Search
pub mod Naming
pub mod Slots
pub mod Scan
pub mod Rehash
pub mod Register
pub mod Grow
pub mod Install
pub mod Dropped
pub mod Retire
mod Examples
