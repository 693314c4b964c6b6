-- ===== src/RingQueue.antt =====
-- asco/concurrency/ring_queue.h: the bounded queue in a ring of slots.
mod Defs
pub mod Counted
mod Index
mod Order
mod Send
mod Recv
mod Create
mod Examples
