-- ===== src/Server.antt =====
-- core/server: the two message servers.
pub mod Calls
pub mod Udp
pub mod Tcp
pub mod Setup
