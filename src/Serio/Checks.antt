-- ===== src/Serio/Checks.antt =====
-- The header's check byte.
use cosmid.Base.{sum, ℕ, ◌+◌, ◌%◌, ◌≡◌, List, [], ◌∷◌, arith, length, u16}
use cosmid.Serio.{Serio, HasHeaderSize, lrc_sum, pkt_hdr}

lrc_sum_lem : (acc : ℕ) (bs : List ℕ) → lrc_sum (acc % 256) bs ≡ (acc + sum bs) % 256
unfolding lrc_sum
lrc_sum_lem acc [] = omega arith
lrc_sum_lem acc (b ∷ bs) = omega (arith, lrc_sum_lem (acc % 256 + b) bs)

-- The bytes of a header, its LRC included, sum to 0 modulo 256, whatever the type and the payload.
pub sum-pkt_hdr : (s : Serio) (type : ℕ) (bytes : List ℕ) → sum (pkt_hdr s type bytes) % 256 ≡ 0
unfolding pkt_hdr
sum-pkt_hdr s type bytes = omega (
  arith,
  lrc_sum_lem 0 (s.hdr_fields type (u16 (length bytes)) (s.crc16modbus_word s.crc_start bytes)),
)

pub length-pkt_hdr :
    (s : Serio) (type : ℕ) (bytes : List ℕ)
    → HasHeaderSize s
    → length (pkt_hdr s type bytes) ≡ s.sizeof_hdr
unfolding pkt_hdr
length-pkt_hdr s type bytes h = h _ _ _
