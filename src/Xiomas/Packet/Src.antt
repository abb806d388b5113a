-- ===== src/Xiomas/Packet/Src.antt =====
-- Xiomas/XioHarvGatewayPacket.h, `enum EXHPacketSources`: the packet sources.
use cosmid.Base.{ℕ}

abbrev pub gateway : ℕ
gateway = 1

abbrev pub scanner : ℕ
scanner = 2

abbrev pub opu : ℕ
opu = 3

abbrev pub onboard_limit : ℕ
onboard_limit = 4

abbrev pub havard_server : ℕ
havard_server = 8

abbrev pub remote_limit : ℕ
remote_limit = 10
