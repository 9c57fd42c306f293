-- ===== src/Mq.antt =====
-- skynet-src/mq.cpp and skynet-src/include/mq.h: the message queue of each service, and the global queue
-- of those that have something to do.
pub mod GlobalQueue
pub mod MessageQueue
mod Tests
