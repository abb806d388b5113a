-- ===== src/Serio.antt =====
-- The serial packets that every driver sends to tm_ip_export: what the drivers use of the library
-- (dasio/serio_pkt.h and crc16modbus.h, neither of which is in this repository), and the header that
-- their forward_packet functions build.
pub mod Checks
pub mod Control
pub mod Sample
mod Tests
use cosmid.Base.{ℕ, suc, ◌+◌, ◌-◌, ◌≡◌, List, [], ◌∷◌, length, u8, u16}

-- What the library provides: its constants, its CRC, and the layout of `serio_pkt_hdr`, whose first
-- byte is the LRC (the drivers sum the bytes from index 1 on).
pub record Serio : Type 0 where
  pub crc16modbus_word : ℕ → List ℕ → ℕ
  pub crc_start : ℕ  -- crc16modbus_word(0,0,0)
  pub hdr_fields : ℕ → ℕ → ℕ → List ℕ  -- the bytes after the LRC, for a type, a length and a CRC
  pub sizeof_hdr : ℕ
  pub pkt_type_sid : ℕ
  pub pkt_type_nph : ℕ

-- `sizeof(serio_pkt_hdr)` counts the LRC and the bytes after it.
abbrev pub HasHeaderSize : Serio → Type 0
HasHeaderSize s =
    (type length' crc : ℕ) → suc (length (s.hdr_fields type length' crc)) ≡ s.sizeof_hdr

-- the loop over the header's bytes from index 1 on
lrc_sum : ℕ → List ℕ → ℕ
lrc_sum lrc [] = lrc
lrc_sum lrc (b ∷ bs) = lrc_sum (u8 (lrc + b)) bs

-- the header for `bytes`: the length is a `uint16_t`, and the LRC a `uint8_t` that is negated
pub pkt_hdr : Serio → ℕ → List ℕ → List ℕ
unfolding lrc_sum
pkt_hdr s type bytes =
    let fields = s.hdr_fields type (u16 (length bytes)) (s.crc16modbus_word s.crc_start bytes) in
    u8 (256 - lrc_sum 0 fields) ∷ fields
