-- ===== src/Nephex.antt =====
-- Nephex/: the driver of the Nephelometer.
pub mod Apid
pub mod Export
pub mod Receiver
pub mod Emulator
pub mod System
