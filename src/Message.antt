-- ===== src/Message.antt =====
-- The message layer of net-qyfh.
pub mod Head
pub mod Packet
pub mod Client
pub mod Reader
pub mod Messages
pub mod Server
pub mod Link
pub mod Listener
mod Runs
