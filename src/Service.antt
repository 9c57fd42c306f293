-- ===== src/Service.antt =====
-- skynet-src/service.cpp, with skynet-src/harbor.cpp and skynet-src/error.cpp: the contexts of services,
-- which bring together the table of handles and the message queues.
pub mod Contexts
pub mod Send
pub mod Dispatch
pub mod Launch
mod Tests
