-- ===== src/Traffic.antt =====
-- Packets between a client and the server, through both ciphers and both loops.
pub mod Packet
pub mod Turn
pub mod Refining
pub mod Datagram
pub mod Coded
pub mod Uplink
pub mod Downlink
pub mod Stale
