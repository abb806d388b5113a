-- ===== src/Xiomas/Packet.antt =====
-- Xiomas/XioHarvGatewayPacket.h and .cpp: the 16-byte header of a Xiomas/Harvard packet, its
-- little-endian fields, its check byte and its validation. A `uint8_t` or `uint32_t` is a number
-- below 2 ^ 8 or 2 ^ 32; a function that writes through its pointer returns the new value.
pub mod Values
pub mod Lrc
pub mod Validate
pub mod Fill
mod Tests
pub mod Pid
pub mod Src
pub mod Flag
use cosmid.Base.{
  ℕ, ◌+◌, ◌-◌, bit_and, bit_or, Bool, true, false, not, ◌&&◌, ◌||◌, List, [], ◌∷◌, ltb, leb, ◌==◌,
  if◌then◌else◌, get_or, u8, u32, shl, shr, ℤ, int_of_u32,
}

-- `uint8_t[4]`
pub record Bytes4 : Type 0 where
  pub b0 : ℕ
  pub b1 : ℕ
  pub b2 : ℕ
  pub b3 : ℕ

-- `struct SXioHarvardHeader`
pub record Header : Type 0 where
  pub start : Bytes4
  pub packet_id : ℕ
  pub source : ℕ
  pub lrc : ℕ
  pub flags : ℕ
  pub payload_length : Bytes4
  pub block_count : Bytes4

-- `sizeof(XioHarvardHeader)`
abbrev pub header_size : ℕ
header_size = 16

-- `XioHarPacketStart`, "$PKT"
abbrev pub packet_start : Bytes4
packet_start = record { b0 = b'$'; b1 = b'P'; b2 = b'K'; b3 = b'T' }

-- `XioHarMaxPayloadLength`
abbrev pub max_payload_length : ℕ
max_payload_length = 511 - header_size

-- `xhfValidFlags`, and its complement on a byte
abbrev pub valid_flags : ℕ
valid_flags = bit_or (bit_or (bit_or Flag.qos Flag.ncts) Flag.cts) Flag.rts

abbrev pub invalid_flags : ℕ
invalid_flags = 255 - valid_flags

abbrev bytes4 : Bytes4 → List ℕ → List ℕ
bytes4 b rest = b.b0 ∷ b.b1 ∷ b.b2 ∷ b.b3 ∷ rest

-- the header as it lies in memory
pub header_bytes : Header → List ℕ
header_bytes h =
    bytes4 h.start
      (h.packet_id ∷ h.source ∷ h.lrc ∷ h.flags ∷ bytes4 h.payload_length (bytes4 h.block_count []))

abbrev bytes4_at : List ℕ → ℕ → Bytes4
bytes4_at buf i = record {
  b0 = get_or buf i 0;
  b1 = get_or buf (i + 1) 0;
  b2 = get_or buf (i + 2) 0;
  b3 = get_or buf (i + 3) 0;
}

-- `(XioHarvardHeader*)&buf[i]`; the callers check that 16 bytes are there
unfoldable pub header_at : List ℕ → ℕ → Header
header_at buf i = record {
  start = bytes4_at buf i;
  packet_id = get_or buf (i + 4) 0;
  source = get_or buf (i + 5) 0;
  lrc = get_or buf (i + 6) 0;
  flags = get_or buf (i + 7) 0;
  payload_length = bytes4_at buf (i + 8);
  block_count = bytes4_at buf (i + 12);
}

-- the loop of `xhgCalculateLRC`
lrc_loop : ℕ → List ℕ → ℕ
lrc_loop lrc [] = lrc
lrc_loop lrc (b ∷ bs) = lrc_loop (u8 (lrc + b)) bs

-- `xhgCalculateLRC`; `~` on a `uint8_t`
unfoldable pub calculate_lrc : Header → ℕ
unfolding lrc_loop header_bytes
calculate_lrc h = 255 - lrc_loop 0 (header_bytes h)

-- `xhgGetValue32`
unfoldable pub get_value32 : Bytes4 → ℕ
get_value32 a = bit_or (bit_or (bit_or (shl a.b0 0) (shl a.b1 8)) (shl a.b2 16)) (shl a.b3 24)

-- `xhgSetValue32`
pub set_value32 : ℕ → Bytes4
set_value32 v = record {
  b0 = u8 (bit_and (shr v 0) 0xff);
  b1 = u8 (bit_and (shr v 8) 0xff);
  b2 = u8 (bit_and (shr v 16) 0xff);
  b3 = u8 (bit_and (shr v 24) 0xff);
}

-- `xhgGetBlockCount`
pub get_block_count : Header → ℕ
get_block_count h = get_value32 h.block_count

-- `xhgGetPayloadLength`
pub get_payload_length : Header → ℕ
get_payload_length h = get_value32 h.payload_length

-- `xhgGetPacketLength`: the sum is returned as a `uint32_t`
unfoldable pub get_packet_length : Header → ℕ
unfolding get_payload_length
get_packet_length h = u32 (header_size + get_payload_length h)

-- `xhgSetBlockCount`
pub set_block_count : Header → ℕ → Header
set_block_count h count = record h { block_count = set_value32 count }

-- `xhgSetPayloadLength`
pub set_payload_length : Header → ℕ → Header
set_payload_length h length = record h { payload_length = set_value32 length }

-- `xhgFillHeader`: the header, with the packet's length, which the code returns as an `int`
pub fill_header : Header → ℕ → ℕ → ℕ → ℕ → ℕ → Header × ℤ
fill_header h pid src flags payload_length block_count =
    let h' : Header = record {
      start = packet_start;
      packet_id = pid;
      source = src;
      lrc = 0;
      flags = flags;
      payload_length = set_value32 payload_length;
      block_count = set_value32 block_count;
    } in
    let filled : Header = record h' { lrc = calculate_lrc h' } in
    (filled, int_of_u32 (get_packet_length filled))

-- the checks of `xhgValidateHeader`, each of which clears `bValid` on its own
abbrev bytes4_eq : Bytes4 → Bytes4 → Bool
bytes4_eq a b = a.b0 == b.b0 && a.b1 == b.b1 && a.b2 == b.b2 && a.b3 == b.b3

abbrev unless_bad : Bool → Bool → Bool
unless_bad bad valid = if bad then false else valid

-- `xhgValidateHeader`
unfoldable pub validate_header : Header → ℕ → Bool
validate_header h packet_length =
    let lrc = calculate_lrc h in
    let v1 = unless_bad (not (bytes4_eq h.start packet_start)) true in
    let v2 =
      unless_bad
        (leb Pid.packet_limit h.packet_id && ltb h.packet_id Pid.fire_layer
          || leb Pid.stream_limit h.packet_id)
        v1 in
    let v3 =
      unless_bad
        (leb Src.onboard_limit h.source && ltb h.source Src.havard_server
          || leb Src.remote_limit h.source
          || h.source == Src.remote_limit)
        v2 in
    let v4 = unless_bad (not (lrc == 0)) v3 in
    let v5 = unless_bad (not (bit_and h.flags invalid_flags == 0)) v4 in
    let v6 =
      unless_bad (leb h.packet_id Pid.packet_limit && ltb max_payload_length (get_payload_length h))
        v5 in
    unless_bad (not (get_packet_length h == packet_length)) v6
