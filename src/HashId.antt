-- ===== src/HashId.antt =====
-- skynet-1.2.0/service-src/hashid.h: the map from the ids of sockets to indices of connections.
pub mod Table
pub mod Slots
pub mod Chain
pub mod Map
pub mod Insert
pub mod Fresh
mod Examples
