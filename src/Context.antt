-- ===== src/Context.antt =====
-- skynet-1.2.0/skynet-src/skynet_server.c: services as contexts, and the dispatch of their messages.
pub mod Server
pub mod Worker
pub mod Count
pub mod Rounds
pub mod Loop
pub mod Dispatch
pub mod Idle
mod Examples
