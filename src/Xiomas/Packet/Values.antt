-- ===== src/Xiomas/Packet/Values.antt =====
-- The little-endian fields: `xhgGetValue32`, `xhgSetValue32` and the accessors built on them.
use cosmid.Base.{
  ℕ, ◌+◌, ◌-◌, ◌*◌, ◌/◌, ◌%◌, ◌^◌, ◌<◌, ◌≤◌, ◌≡◌, ◌⊎◌, inl, inr, refl, bit_and-low_byte,
  bit_or-shifted, arith,
}
use native.Mathlib.Decide.{dec_lt}
use cosmid.Xiomas.Packet.{
  Bytes4, Header, header_size, get_value32, set_value32, get_payload_length, get_block_count,
  get_packet_length, set_payload_length, set_block_count,
}

-- the four bytes are `uint8_t` values
pub record IsBytes4 (a : Bytes4) : Type 0 where
  pub small0 : a.b0 < 256
  pub small1 : a.b1 < 256
  pub small2 : a.b2 < 256
  pub small3 : a.b3 < 256

-- the number that four bytes stand for, least significant first
abbrev pub little_endian : Bytes4 → ℕ
little_endian a = a.b0 + a.b1 * 2 ^ 8 + a.b2 * 2 ^ 16 + a.b3 * 2 ^ 24

pub get_value32_lem : {a : Bytes4} → IsBytes4 a → get_value32 a ≡ little_endian a
unfolding get_value32
get_value32_lem {a} v = ground (
  arith,
  bit_or-shifted 8 a.b0 a.b1 (omega arith),
  bit_or-shifted 16 (a.b0 + a.b1 * 2 ^ 8) a.b2 (omega arith),
  bit_or-shifted 24 (a.b0 + a.b1 * 2 ^ 8 + a.b2 * 2 ^ 16) a.b3 (omega arith),
)

pub set_value32-IsBytes4 : (v : ℕ) → IsBytes4 (set_value32 v)
unfolding set_value32
set_value32-IsBytes4 v = omega arith

-- The field set to `v` stands for `v` modulo 2 ^ 32.
pub little_endian-set_value32 : (v : ℕ) → little_endian (set_value32 v) ≡ v % 2 ^ 32
unfolding set_value32
little_endian-set_value32 v = omega (
  arith,
  bit_and-low_byte (v / 2 ^ 0),
  bit_and-low_byte (v / 2 ^ 8),
  bit_and-low_byte (v / 2 ^ 16),
  bit_and-low_byte (v / 2 ^ 24),
)

pub set_value32-get_value32 : {a : Bytes4} → IsBytes4 a → set_value32 (get_value32 a) ≡ a
unfolding set_value32
set_value32-get_value32 {a} v = rw (get_value32_lem v) (
    ground (
      arith,
      bit_and-low_byte (little_endian a / 2 ^ 0),
      bit_and-low_byte (little_endian a / 2 ^ 8),
      bit_and-low_byte (little_endian a / 2 ^ 16),
      bit_and-low_byte (little_endian a / 2 ^ 24),
    ))

-- For every 32-bit `v` and every field `a` of four bytes: a field set to `v` reads back as `v`, and
-- setting the field to the value read from `a` gives the bytes of `a` again.
pub get_value32-set_value32 :
    (v : ℕ) (a : Bytes4)
    → v < 2 ^ 32
    → IsBytes4 a
    → (get_value32 (set_value32 v) ≡ v) × (set_value32 (get_value32 a) ≡ a)
get_value32-set_value32 v a h w = (
  omega (arith, get_value32_lem (set_value32-IsBytes4 v), little_endian-set_value32 v),
  set_value32-get_value32 w,
)

pub get_value32-lt : {a : Bytes4} → IsBytes4 a → get_value32 a < 2 ^ 32
get_value32-lt w = omega (arith, get_value32_lem w)

-- Setting one of the two length fields of a header to a 32-bit value is read back by its accessor
-- and leaves the other field as it was.
pub get-set_fields :
    (h : Header) (v : ℕ)
    → v < 2 ^ 32
    → (get_payload_length (set_payload_length h v) ≡ v)
      × (get_block_count (set_block_count h v) ≡ v)
      × (get_payload_length (set_block_count h v) ≡ get_payload_length h)
      × (get_block_count (set_payload_length h v) ≡ get_block_count h)
unfolding get_payload_length get_block_count set_payload_length set_block_count
get-set_fields h v lt = (read_back, read_back, refl, refl)
  where
    read_back : get_value32 (set_value32 v) ≡ v
    read_back = omega (arith, get_value32_lem (set_value32-IsBytes4 v), little_endian-set_value32 v)

-- For a header whose payload length field holds bytes, the packet length is 16 more than the payload
-- length exactly when the payload length is below 2 ^ 32 - 16; otherwise the sum wraps and the
-- packet length is smaller than the 16-byte header.
pub get_packet_length_cases :
    (h : Header)
    → IsBytes4 h.payload_length
    → ((get_payload_length h < 2 ^ 32 - 16)
        × (get_packet_length h ≡ get_payload_length h + header_size))
      ⊎ ((2 ^ 32 - 16 ≤ get_payload_length h)
          × (get_packet_length h + 2 ^ 32 ≡ get_payload_length h + header_size)
          × (get_packet_length h < header_size))
unfolding get_packet_length get_payload_length
get_packet_length_cases h w = elim (dec_lt (get_value32 h.payload_length) (2 ^ 32 - 16)) [
  | yes p ↦ inl (omega arith)
  | no p ↦ inr (omega (arith, get_value32-lt w))
]
