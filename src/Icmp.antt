-- ===== src/Icmp.antt =====
-- Package icmp: the ping worker.
pub mod Conn
pub mod Ping
