-- ===== src/Handle.antt =====
-- skynet-src/handle.cpp and skynet-src/include/handle.h: the table of all services, by their handles
-- and by their names, one field of `HandleStorage` to a field of `Storage`.
pub mod Text
pub mod Storage
pub mod Slots
pub mod Names
pub mod Retire
mod Tests
