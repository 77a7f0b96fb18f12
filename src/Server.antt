-- ===== src/Server.antt =====
-- esp8266_decoder/source: the start of the server from its arguments (server.cpp), and the threads
-- that answer (worker_pool.cpp).
pub mod Arguments
pub mod Ports
pub mod Pool
