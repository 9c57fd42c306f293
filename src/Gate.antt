-- ===== src/Gate.antt =====
-- service-src/service_gate.cpp with service-src/databuffer.h: the service that cuts the byte streams
-- of its connections into messages.
pub mod Databuffer
pub mod Dispatch
pub mod Hashid
pub mod Sockets
mod Tests
