-- ===== src/Nephex/Export.antt =====
-- Nephex/nephex_export.h and .cc, class nephex_tcp_export: its state is the number of bytes written
-- and not acknowledged. `obuf_empty` is whether the library's output buffer is empty at the call.
pub mod Input
use cosmid.Base.{
  ℕ, ◌+◌, ◌-◌, Bool, ◌&&◌, Option, some, List, [], ◌∷◌, ltb, if◌then◌else◌, ◌>>◌, nl_assert, length,
  add32, u16,
}
use cosmid.Serio.{Serio, pkt_hdr}

-- `CTS()`
abbrev pub cts : ℕ → Bool → Bool
cts outstanding_bytes obuf_empty = ltb outstanding_bytes 2000 && obuf_empty

-- The new state, and the two spans written, the header and the packet. `bytes` has less than 2^16
-- bytes, since `n_bytes` is a `uint16_t`.
unfoldable pub forward_packet : Serio → ℕ → Bool → List ℕ → Option (ℕ × List (List ℕ))
forward_packet s outstanding_bytes obuf_empty bytes = do
  nl_assert (cts outstanding_bytes obuf_empty)
  some (
    add32 outstanding_bytes (s.sizeof_hdr + u16 (length bytes)),
    pkt_hdr s s.pkt_type_nph bytes ∷ bytes ∷ [],
  )

-- the case `ctrl_subtype_ACK` of `app_input`, for an acknowledgement of `n` bytes
abbrev pub handle_ack : ℕ → ℕ → ℕ
handle_ack outstanding_bytes n = if ltb outstanding_bytes n then 0 else outstanding_bytes - n
