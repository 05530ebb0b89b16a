-- ===== src/Network.antt =====
-- network: the table of connections, and the dialer that fills it.
pub mod Manager
pub mod Dialer
pub mod Listeners
