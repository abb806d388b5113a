-- ===== src/Serio/Tests.antt =====
-- The header of a serial packet on a concrete library.
use cosmid.Base.{sum, ◌+◌, ◌%◌, ◌≡◌, [], ◌∷◌}
use cosmid.Serio.{Serio, pkt_hdr}
use cosmid.Serio.Checks.{sum-pkt_hdr}

abbrev serio : Serio
serio = record {
  crc16modbus_word = λ crc bytes. crc + sum bytes;
  crc_start = 77;
  hdr_fields = λ type length' crc. type ∷ length' ∷ crc ∷ [];
  sizeof_hdr = 4;
  pkt_type_sid = 200;
  pkt_type_nph = 201;
}

sum-pkt_hdr_example : sum (pkt_hdr serio 200 (9 ∷ 8 ∷ [])) % 256 ≡ 0
sum-pkt_hdr_example = sum-pkt_hdr serio 200 (9 ∷ 8 ∷ [])
