-- ===== src/Xiomas/Packet/Pid.antt =====
-- Xiomas/XioHarvGatewayPacket.h, `enum EXHPacketIDs`: the packet IDs.
use cosmid.Base.{ℕ}

abbrev pub gw_control : ℕ
gw_control = 1

abbrev pub xio_status : ℕ
xio_status = 3

abbrev pub packet_limit : ℕ
packet_limit = 4

abbrev pub fire_layer : ℕ
fire_layer = 0x81

abbrev pub mw_band : ℕ
mw_band = 0x82

abbrev pub lw_band : ℕ
lw_band = 0x83

abbrev pub stream_limit : ℕ
stream_limit = 0x84
