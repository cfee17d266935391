-- ===== src/Gate.antt =====
-- skynet-1.2.0/service-src/service_gate.c: the gate, which cuts what its connections receive into
-- packages and passes them to services.
pub mod Service
pub mod Forward
pub mod Cut
pub mod Message
pub mod Table
mod Examples
