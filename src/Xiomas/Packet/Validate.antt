-- ===== src/Xiomas/Packet/Validate.antt =====
-- `xhgValidateHeader` against a description of a valid header, and `xhgFillHeader` against both.
use cosmid.Base.{sum, ℕ, ◌%◌, ◌≤◌, ◌<◌, ◌≡◌, ◌↔◌, ◌⊎◌, true, arith, bit_and}
use cosmid.Xiomas.Packet.{
  Header, packet_start, invalid_flags, header_bytes, calculate_lrc, get_payload_length,
  get_packet_length, validate_header,
}
use cosmid.Xiomas.Packet.Lrc.{calculate_lrc_lem}

-- the packet IDs and the sources that the enumerations name, the reserved 0 among them
abbrev pub KnownPid : ℕ → Type 0
KnownPid pid = (pid < 4) ⊎ ((0x81 ≤ pid) × (pid < 0x84))

abbrev pub KnownSource : ℕ → Type 0
KnownSource src = (src < 4) ⊎ ((8 ≤ src) × (src < 10))

-- a header that is valid for a packet of `n` bytes
pub record IsValidHeader (h : Header) (n : ℕ) : Type 0 where
  pub starts : h.start ≡ packet_start
  pub known_pid : KnownPid h.packet_id
  pub known_source : KnownSource h.source
  pub checks : sum (header_bytes h) % 256 ≡ 255
  pub known_flags : bit_and h.flags invalid_flags ≡ 0
  pub fits : h.packet_id ≤ 4 → get_payload_length h ≤ 495
  pub length_agrees : get_packet_length h ≡ n

starts_accepted : (h : Header) (n : ℕ) → validate_header h n ≡ true → h.start ≡ packet_start
unfolding validate_header
starts_accepted h n e = ground arith

pid_accepted : (h : Header) (n : ℕ) → validate_header h n ≡ true → KnownPid h.packet_id
unfolding validate_header
pid_accepted h n e = ground arith

source_accepted : (h : Header) (n : ℕ) → validate_header h n ≡ true → KnownSource h.source
unfolding validate_header
source_accepted h n e = ground arith

rest_accepted :
    (h : Header) (n : ℕ)
    → validate_header h n ≡ true
    → (calculate_lrc h ≡ 0)
      × (bit_and h.flags invalid_flags ≡ 0)
      × (h.packet_id ≤ 4 → get_payload_length h ≤ 495)
      × (get_packet_length h ≡ n)
unfolding validate_header
rest_accepted h n e = ground arith

valid_accepted : (h : Header) (n : ℕ) → IsValidHeader h n → validate_header h n ≡ true
unfolding validate_header
valid_accepted h n v = ground (arith, (calculate_lrc_lem h).1.1 v.checks)

-- A header passes the validation for a packet of `n` bytes exactly when it starts with "$PKT", has a
-- known packet ID and source, a byte sum of 255 modulo 256, no reserved flag, at most 495 bytes of
-- payload if its ID is that of a UDP packet, and a packet length of `n`.
pub validate_header_iff : (h : Header) (n : ℕ) → (validate_header h n ≡ true) ↔ IsValidHeader h n
validate_header_iff h n = (
  λ e.
      let (lrc, flags, fits, len) = rest_accepted h n e in
      record {
        starts = starts_accepted h n e;
        known_pid = pid_accepted h n e;
        known_source = source_accepted h n e;
        checks = (calculate_lrc_lem h).1.0 lrc;
        known_flags = flags;
        fits = fits;
        length_agrees = len;
      },
  valid_accepted h n,
)
