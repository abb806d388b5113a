-- ===== src/Xiomas/Udp.antt =====
-- Xiomas/xiomas_export.h and .cc, classes xiomas_udp_rcvr, xiomas_udp_txmtr and xiomas_udp_export:
-- the scanner's datagrams are checked, answered, logged, and forwarded unless the export is busy.
-- Messages to the log that are not errors are left out.
pub mod Outputs
pub mod Flow
pub mod Input
pub mod Wait
pub mod Runs
mod Tests
use cosmid.Base.{
  ℕ, ◌+◌, ◌-◌, bit_and, Bool, true, false, not, ◌||◌, List, [], ◌∷◌, ◌++◌, ltb, ◌==◌, if◌then◌else◌,
  length, add32, u8, u32,
}
use cosmid.Serio.{Serio, pkt_hdr}
use cosmid.Xiomas.Packet
use cosmid.Xiomas.Packet.{
  Header, header_size, header_at, header_bytes, validate_header, fill_header,
}

-- `socket_state` of the transmitter, as far as it is told apart
pub data SocketState : Type 0 where
  disconnected connecting connected : SocketState

pub data Report : Type 0 where
  short_header bad_packet : Report
  unexpected_source : ℕ → Report

-- what happens outside, in order
pub data Output : Type 0 where
  reported : Report → Output
  logged : List ℕ → Output
  sent : List ℕ → Output  -- to the scanner
  forwarded : List (List ℕ) → Output  -- the spans written to tm_ip_export

-- the receiver, with the transmitter and the export client that it uses
pub record UdpReceiver : Type 0 where
  pub socket_state : SocketState
  pub block_count : ℕ
  pub pkts_recd : ℕ
  pub connect_requested : Bool
  pub ack_pending : Bool
  pub packets_dropped : ℕ  -- an `int`, as its 32 bits: one that has overflowed is from 2 ^ 31 on

-- The library's: what `connect()` makes of a disconnected socket, whether the output buffers of the
-- transmitter and of the export client are empty after what was done, and the packet type.
module _ (s : Serio) (pkt_type_xio : ℕ) (hdr0 : Header) (connect : SocketState)
    (tx_empty exp_empty : List Output → Bool) where
  -- `CTS()` of the transmitter, which connects it if it is not
  pub cts_in : SocketState → UdpReceiver → List Output → Bool × UdpReceiver
  cts_in disconnected r out = (false, record r { socket_state = connect })
  cts_in connecting r out = (false, r)
  cts_in connected r out = (tx_empty out, r)

  pub cts : UdpReceiver → List Output → Bool × UdpReceiver
  cts r out = cts_in r.socket_state r out

  -- `sendFlag`; the count goes up whether or not the header is sent
  pub send_flag : ℕ → UdpReceiver → List Output → UdpReceiver × List Output
  send_flag flag r out =
      let count = add32 r.block_count 1 in
      let hdr = (fill_header hdr0 Packet.Pid.gw_control Packet.Src.gateway flag 0 count).0 in
      let (clear, r') = cts (record r { block_count = count }) out in
      (r', if clear then out ++ (sent (header_bytes hdr) ∷ []) else out)

  -- `forward_packet` of the export client
  pub forward_packet : UdpReceiver → List Output → List ℕ → UdpReceiver × List Output
  forward_packet r out bytes =
      if r.ack_pending || not (exp_empty out)
      then (record r { packets_dropped = u32 (r.packets_dropped + 1) }, out)
      else (
        record r { ack_pending = true },
        out ++ (forwarded (pkt_hdr s pkt_type_xio bytes ∷ bytes ∷ []) ∷ []),
      )

  -- a request to send: nothing unless the transmitter is clear to send
  pub answer_rts : UdpReceiver → List Output → UdpReceiver × List Output
  answer_rts r out =
      let (clear, r') = cts r out in
      if clear
      then (if ltb 0 r'.pkts_recd
          then (record r' { pkts_recd = r'.pkts_recd - 1 }, out)
          else send_flag Packet.Flag.cts r' out)
      else (r', out)

  -- the case of a status packet: the count is a `uint8_t`
  pub status_packet : UdpReceiver → List Output → List ℕ → UdpReceiver × List Output
  status_packet r out bytes =
      let r' : UdpReceiver = record r { pkts_recd = u8 (r.pkts_recd + 1) } in
      let (r'', out') =
        if ltb 10 r'.pkts_recd then send_flag Packet.Flag.ncts r' out else (r', out) in
      forward_packet r'' (out' ++ (logged bytes ∷ [])) bytes

  -- what is done with a good packet from the scanner
  pub good_packet : UdpReceiver → List Output → Header → List ℕ → UdpReceiver × List Output
  good_packet r out hdr bytes =
      let (r', out') =
        if not (bit_and hdr.flags Packet.Flag.rts == 0) then answer_rts r out else (r, out) in
      if hdr.packet_id == Packet.Pid.xio_status then status_packet r' out' bytes else (r', out')

  -- `protocol_input`, for a datagram
  pub protocol_input : UdpReceiver → List ℕ → UdpReceiver × List Output
  protocol_input r bytes =
      let hdr = header_at bytes 0 in
      let r' : UdpReceiver =
        if r.connect_requested then r else record ((cts r []).1) { connect_requested = true } in
      if ltb (length bytes) header_size
      then (r', reported short_header ∷ [])
      else if not (validate_header hdr (length bytes))
      then (r', reported bad_packet ∷ [])
      else if not (hdr.source == Packet.Src.scanner)
      then (r', reported (unexpected_source hdr.source) ∷ [])
      else good_packet r' [] hdr bytes

-- `app_input` of the export client: any input, "OK" or not, acknowledges the packet. What it says of
-- input that is not "OK" is left out.
unfoldable pub acknowledge : UdpReceiver → List ℕ → UdpReceiver
acknowledge r input = if ltb 0 (length input) then record r { ack_pending = false } else r
