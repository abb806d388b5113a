-- ===== src/Xiomas/Packet/Flag.antt =====
-- Xiomas/XioHarvGatewayPacket.h, `enum EXHPacketFlags`: the packet flags.
use cosmid.Base.{ℕ}

abbrev pub qos : ℕ
qos = 0x01

abbrev pub ncts : ℕ
ncts = 0x10

abbrev pub cts : ℕ
cts = 0x20

abbrev pub rts : ℕ
rts = 0x40
