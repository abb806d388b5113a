-- ===== src/Xiomas.antt =====
-- Xiomas/: the gateway between the Xiomas scanner and the telemetry stream.
pub mod Packet
pub mod Circ
pub mod Export
pub mod Receiver
pub mod Udp
pub mod System
