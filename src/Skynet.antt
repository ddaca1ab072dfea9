-- ===== src/Skynet.antt =====
-- The runtime under 02_skynet/lib/skynet: message queues, handles, timers, buffers, the dispatch of
-- messages, and the sending of them.
pub mod Mq
pub mod Handle
pub mod Timer
pub mod Databuffer
pub mod Hashid
pub mod Gate
pub mod Dispatch
pub mod Send
pub mod Monitor
pub mod Socket
pub mod Netpack
pub mod Seri
