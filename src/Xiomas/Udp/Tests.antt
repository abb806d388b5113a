-- ===== src/Xiomas/Udp/Tests.antt =====
-- A status packet from the scanner, over a library whose packet header is one byte.
use cosmid.Base.{
  ◌+◌, ◌-◌, ◌^◌, ◌<◌, length, ◌&&◌, ltb, leb, if◌then◌else◌, arith, ℕ, ◌≡◌, refl, Bool, true, false,
  List, [], ◌∷◌, flatten,
}
use cosmid.Xiomas.Packet
use cosmid.Serio.Sample.{plain}
use cosmid.Xiomas.Packet.{
  Header, Bytes4, validate_header, header_at, get_packet_length, get_value32, calculate_lrc,
}
use cosmid.Xiomas.Udp.{UdpReceiver, Output, connected, protocol_input, status_packet}
use cosmid.Xiomas.Udp.Outputs.{is_status, logs, forwards, sends}
use cosmid.Xiomas.Udp.Runs.{Event, datagram, acks, start, statuses, run, Plays, run-Tallies}
use cosmid.Xiomas.Udp.Wait.{flag_message, status_packet-tells}
use cosmid.Xiomas.Udp.Input.{Accounts, protocol_input-Accounts}

abbrev zeros : Bytes4
zeros = record { b0 = 0; b1 = 0; b2 = 0; b3 = 0 }

abbrev hdr0 : Header
hdr0 = record {
  start = zeros;
  packet_id = 0;
  source = 0;
  lrc = 0;
  flags = 0;
  payload_length = zeros;
  block_count = zeros;
}

-- a status packet with ten bytes of payload
abbrev status : List ℕ
status =
    b'$' ∷ b'P' ∷ b'K' ∷ b'T' ∷ 3 ∷ 2 ∷ 221 ∷ 0 ∷ 10 ∷ 0 ∷ 0 ∷ 0 ∷ 0 ∷ 0 ∷ 0 ∷ 0 ∷ 1 ∷ 2 ∷ 3 ∷ 4 ∷ 5
    ∷ 6 ∷ 7 ∷ 8 ∷ 9 ∷ 10 ∷ []

status-accepted : is_status status ≡ true
unfolding validate_header header_at get_packet_length get_value32 calculate_lrc
status-accepted = refl

abbrev udp : UdpReceiver
udp = record {
  socket_state = connected;
  block_count = 0;
  pkts_recd = 3;
  connect_requested = true;
  ack_pending = true;
  packets_dropped = 4;
}

abbrev always_empty : List Output → Bool
always_empty out = true

protocol_input-Accounts_example :
    Accounts plain 7 always_empty true 4 status
      (protocol_input plain 7 hdr0 connected always_empty always_empty udp status)
protocol_input-Accounts_example =
    protocol_input-Accounts plain 7 hdr0 connected always_empty always_empty udp status
      (omega arith)

abbrev told : UdpReceiver
told = record udp { pkts_recd = 254 }

status_packet-tells_example :
    sends (status_packet plain 7 hdr0 connected always_empty always_empty told [] status).1
    ≡ (if leb 10 254 && ltb 254 255 then flag_message hdr0 Packet.Flag.ncts 1 ∷ [] else [])
status_packet-tells_example =
    status_packet-tells plain 7 hdr0 connected always_empty always_empty told status refl refl
      (omega arith)

-- two status packets, an acknowledgement, and a third, with a datagram that is none
abbrev events : List Event
events =
    datagram status always_empty always_empty
    ∷ datagram status always_empty always_empty
    ∷ acks (b'O' ∷ b'K' ∷ b'\n' ∷ [])
    ∷ datagram (1 ∷ []) always_empty always_empty
    ∷ datagram status always_empty always_empty
    ∷ []

few_statuses : length (statuses events) < 2 ^ 31 - 1
unfolding validate_header get_packet_length get_value32 header_at calculate_lrc
few_statuses = omega arith

run-Tallies_example :
    let (r', outs) = run plain 7 hdr0 connected events (start connected) in
    Plays plain 7 hdr0 connected false events outs
    × (logs (flatten outs) ≡ statuses events)
    × (length (forwards (flatten outs)) + r'.packets_dropped ≡ length (statuses events))
run-Tallies_example = run-Tallies plain 7 hdr0 connected connected events few_statuses
