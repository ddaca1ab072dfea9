-- ===== src/Sunnet.antt =====
-- The Sunnet server of 06_tcp_network_module and 07_embed_lua: services, workers, connections.
pub mod ConnWriter
pub mod Sched
