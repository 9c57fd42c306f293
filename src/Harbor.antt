-- ===== src/Harbor.antt =====
-- service-src/service_harbor.cpp: the service that carries messages between the nodes of a cluster.
pub mod Queue
pub mod Wire
pub mod Slave
pub mod Receive
pub mod Names
pub mod Service
mod Tests
