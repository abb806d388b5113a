-- ===== src/Xiomas/Packet/Tests.antt =====
-- Headers on concrete inputs.
use cosmid.Base.{sum, ◌+◌, ◌-◌, ◌%◌, ◌^◌, ◌≤◌, ◌≡◌, ◌≢◌, ◌↔◌, inl, refl, true, arith, bit_and, pos}
use cosmid.Xiomas.Packet.{
  Bytes4, Header, packet_start, header_size, invalid_flags, header_bytes, calculate_lrc,
  get_value32, set_value32, get_packet_length, fill_header, validate_header,
}
use cosmid.Xiomas.Packet.Lrc.{calculate_lrc_lem, calculate_lrc_detects}
use cosmid.Xiomas.Packet.Validate.{KnownPid, KnownSource, IsValidHeader, validate_header_iff}
use cosmid.Xiomas.Packet.Fill.{
  returned_length, validate_header-fill_header, validate_header-short_packet,
}

abbrev zeros : Bytes4
zeros = record { b0 = 0; b1 = 0; b2 = 0; b3 = 0 }

abbrev ten : Bytes4
ten = record { b0 = 10; b1 = 0; b2 = 0; b3 = 0 }

-- a status packet of the scanner, with ten bytes of payload
abbrev status : Header
status = record {
  start = packet_start;
  packet_id = 3;
  source = 2;
  lrc = 221;
  flags = 0;
  payload_length = ten;
  block_count = zeros;
}

fills : fill_header status 3 2 0 10 0 ≡ (status, pos 26)
unfolding fill_header calculate_lrc set_value32 get_packet_length get_value32
fills = refl

status-valid : validate_header status 26 ≡ true
unfolding validate_header calculate_lrc get_packet_length get_value32
status-valid = refl

-- the same with another flag byte
abbrev corrupted : Header
corrupted = record status { flags = 1 }

calculate_lrc_lem_example :
    (calculate_lrc status + sum (header_bytes status) % 256 ≡ 255)
    × ((calculate_lrc status ≡ 0) ↔ (sum (header_bytes status) % 256 ≡ 255))
calculate_lrc_lem_example = calculate_lrc_lem status

calculate_lrc_detects_example : calculate_lrc corrupted ≢ 0
unfolding header_bytes calculate_lrc
calculate_lrc_detects_example =
    calculate_lrc_detects status corrupted 7 1 (omega arith) (omega arith) (omega arith)
      (omega arith) refl refl

validate_header_iff_example : (validate_header status 26 ≡ true) ↔ IsValidHeader status 26
validate_header_iff_example = validate_header_iff status 26

validate_header-fill_header_example :
    let (f, len) = fill_header status 3 2 0 10 7 in
    (len ≡ returned_length 10)
    × ((validate_header f 26 ≡ true) ↔ (
        KnownPid 3
        × KnownSource 2
        × (bit_and 0 invalid_flags ≡ 0)
        × (3 ≤ 4 → 10 ≤ 495)
        × ((header_size + 10) % 2 ^ 32 ≡ 26)))
validate_header-fill_header_example = validate_header-fill_header status 3 2 0 10 7 26 (omega arith)

validate_header-short_packet_example :
    let f = (fill_header status 0x81 3 0 (2 ^ 32 - 16 + 0) 0).0 in
    (validate_header f 0 ≡ true) × (get_packet_length f ≡ 0)
validate_header-short_packet_example =
    validate_header-short_packet status 0x81 3 0 0 0 (omega arith) (omega arith) (omega arith)
      (inl (omega arith)) refl
