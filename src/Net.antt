-- ===== src/Net.antt =====
-- The sockets of source/net.
pub mod IoServer
pub mod Tcp
pub mod Timer
