-- ===== src/Pops.antt =====
-- The POPS instrument: the driver POPS/, and the server BBB/srvr/ beside the instrument.
pub mod Server
pub mod Fields
pub mod Packet
pub mod Client
pub mod Sample
pub mod Session
