-- ===== src/Mq.antt =====
-- skynet-1.2.0/skynet-src/skynet_mq.c: the message queue of a service, and the global queue of the
-- services that have messages.
pub mod Queue
pub mod Ring
pub mod Overload
pub mod Expand
pub mod Fifo
pub mod Chain
pub mod Global
pub mod Fair
pub mod Service
pub mod Mark
pub mod Rotate
pub mod Apart
pub mod Release
mod Examples
