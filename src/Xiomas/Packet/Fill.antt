-- ===== src/Xiomas/Packet/Fill.antt =====
-- `xhgFillHeader`, and the packets that its headers and the validation let through.
use cosmid.Base.{
  sum, ℕ, ◌+◌, ◌-◌, ◌%◌, ◌^◌, ◌≤◌, ◌<◌, ◌≡◌, ◌↔◌, refl, sym, ap, ◌∙◌, inr, true, arith, bit_and, ℤ,
  pos, negsuc, int_of_u32, ltb, if◌then◌else◌,
}
use cosmid.Xiomas.Packet.{
  Header, header_size, invalid_flags, header_bytes, get_payload_length, get_packet_length,
  get_block_count, fill_header, validate_header, set_value32, packet_start,
}
use cosmid.Xiomas.Packet.Lrc.{calculate_lrc_lem}
use cosmid.Xiomas.Packet.Values.{
  IsBytes4, get_packet_length_cases, set_value32-IsBytes4, get_value32_lem,
  little_endian-set_value32,
}
use cosmid.Xiomas.Packet.Validate.{KnownPid, KnownSource, validate_header_iff}

module _ (h : Header) (pid src flags plen blk : ℕ) where
  abbrev filled : Header
  filled = (fill_header h pid src flags plen blk).0

  -- the header that the check byte is computed from
  blank : Header
  blank = record {
    start = packet_start;
    packet_id = pid;
    source = src;
    lrc = 0;
    flags = flags;
    payload_length = set_value32 plen;
    block_count = set_value32 blk;
  }

  filled-checks : sum (header_bytes filled) % 256 ≡ 255
  unfolding fill_header header_bytes blank
  filled-checks = omega (arith, (calculate_lrc_lem blank).0)

  filled-payload_length : plen < 2 ^ 32 → get_payload_length filled ≡ plen
  unfolding fill_header get_payload_length
  filled-payload_length lt =
      omega (arith, get_value32_lem (set_value32-IsBytes4 plen), little_endian-set_value32 plen)

  filled-block_count : blk < 2 ^ 32 → get_block_count filled ≡ blk
  unfolding fill_header get_block_count
  filled-block_count lt =
      omega (arith, get_value32_lem (set_value32-IsBytes4 blk), little_endian-set_value32 blk)

  filled-packet_length : plen < 2 ^ 32 → get_packet_length filled ≡ (header_size + plen) % 2 ^ 32
  unfolding get_packet_length
  filled-packet_length lt = rw (filled-payload_length lt) refl

-- what `xhgFillHeader` returns for a payload length, an `int`
abbrev pub returned_length : ℕ → ℤ
returned_length plen =
    if ltb plen (2 ^ 31 - 16)
    then pos (header_size + plen)
    else if ltb plen (2 ^ 32 - 16)
    then negsuc (2 ^ 32 - 17 - plen)
    else pos (plen - (2 ^ 32 - 16))

returned_length_lem :
    (plen : ℕ) → plen < 2 ^ 32 → int_of_u32 ((header_size + plen) % 2 ^ 32) ≡ returned_length plen
returned_length_lem plen lt = ground arith

-- A header filled for a 32-bit payload length is returned with its packet length, 16 + the payload
-- length, as an `int`: from a payload of 2 ^ 31 - 16 bytes on it is 2 ^ 32 less, so that it is
-- negative below 2 ^ 32 - 16. It is valid for a packet of `n` bytes exactly when the ID and the source
-- are known, no reserved flag is set, a UDP packet's payload is at most 495 bytes, and `n` is that
-- packet length modulo 2 ^ 32: whatever the header held before, the check byte and the start mark come out right.
pub validate_header-fill_header :
    (h : Header) (pid src flags plen blk n : ℕ)
    → plen < 2 ^ 32
    → let (f, len) = fill_header h pid src flags plen blk in
      (len ≡ returned_length plen)
      × ((validate_header f n ≡ true) ↔ (
          KnownPid pid
          × KnownSource src
          × (bit_and flags invalid_flags ≡ 0)
          × (pid ≤ 4 → plen ≤ 495)
          × ((header_size + plen) % 2 ^ 32 ≡ n)))
unfolding fill_header
validate_header-fill_header h pid src flags plen blk n lt = (
  ap int_of_u32 length ∙ returned_length_lem plen lt,
  (
    λ e.
        let v = (validate_header_iff _ n).0 e in
        (
          v.known_pid,
          v.known_source,
          v.known_flags,
          λ p. rw (← filled-payload_length h pid src flags plen blk lt) (v.fits p),
          sym length ∙ v.length_agrees,
        ),
    λ (known_pid, known_source, known_flags, fits, agrees). (validate_header_iff _ n).1 (record {
      starts = refl;
      known_pid = known_pid;
      known_source = known_source;
      checks = filled-checks h pid src flags plen blk;
      known_flags = known_flags;
      fits = λ p. rw (filled-payload_length h pid src flags plen blk lt) (fits p);
      length_agrees = length ∙ agrees;
    }),
  ),
)
  where
    length :
        get_packet_length (fill_header h pid src flags plen blk).0 ≡ (header_size + plen) % 2 ^ 32
    length = filled-packet_length h pid src flags plen blk lt

-- A header that passes the validation for a packet of `n` bytes, with the packet ID of a UDP packet
-- and a payload length field of bytes, belongs to a packet of 16 to 511 bytes with `n` - 16 bytes of
-- payload.
pub validate_header-udp_bounds :
    (h : Header) (n : ℕ)
    → IsBytes4 h.payload_length
    → h.packet_id ≤ 4
    → validate_header h n ≡ true
    → (16 ≤ n) × (n ≤ 511) × (get_payload_length h + 16 ≡ n)
validate_header-udp_bounds h n w p e =
    let v = (validate_header_iff h n).0 e in
    omega (arith, get_packet_length_cases h w, v.fits p, v.length_agrees)

-- A header for an image packet that passes the validation need not announce a packet as long as
-- the header itself: with a payload length of 2 ^ 32 - 16 + k for a k below 16, the header filled for
-- any known image ID and source, with no reserved flag, is valid for a packet of k bytes.
pub validate_header-short_packet :
    (h : Header) (pid src flags blk k : ℕ)
    → k < 16
    → 0x81 ≤ pid
    → pid < 0x84
    → KnownSource src
    → bit_and flags invalid_flags ≡ 0
    → let f = (fill_header h pid src flags (2 ^ 32 - 16 + k) blk).0 in
      (validate_header f k ≡ true) × (get_packet_length f ≡ k)
validate_header-short_packet h pid src flags blk k lt lo hi known ok =
    let (len, iff) =
      validate_header-fill_header h pid src flags (2 ^ 32 - 16 + k) blk k (omega arith) in
    let short : (16 + (2 ^ 32 - 16 + k)) % 2 ^ 32 ≡ k = omega arith in
    (
      iff.1 (inr (lo, hi), known, ok, λ p. absurd (omega arith), short),
      filled-packet_length h pid src flags (2 ^ 32 - 16 + k) blk (omega arith) ∙ short,
    )
