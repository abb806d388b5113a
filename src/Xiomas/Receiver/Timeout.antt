-- ===== src/Xiomas/Receiver/Timeout.antt =====
-- Xiomas/xiomas_export.cc: the constructor of xiomas_tcp_rcvr, and protocol_timeout.
use cosmid.Base.{ℕ, Bool, false, bit_and, []}
use cosmid.Xiomas.Packet
use cosmid.Xiomas.Packet.{Header}
use cosmid.Xiomas.Export.{TcpExport}
use cosmid.Xiomas.Receiver.Fields.{xtr_lost, Output, Receiver, send_flag}

-- the constructor, which leaves `transmitting` what it is
unfoldable pub new_receiver : ℕ → Bool → TcpExport → Receiver
new_receiver id transmitting exp = record {
  id = id;
  input = record { buf = []; cp = 0 };
  state = xtr_lost;
  bytes_remaining_in_packet = 0;
  bytes_discarding = 0;
  block_count = 0;
  transmitting_current_packet = transmitting;
  waits_for_timeout = false;
  exp = exp;
}

-- `protocol_timeout` up to the call of `reset`, with the flags of the interface and the library's
-- constant Fl_Timeout
unfoldable pub protocol_timeout : Header → ℕ → ℕ → Receiver → ℕ × Receiver × Output
protocol_timeout hdr0 fl_timeout flags r =
    let (r', cts) = send_flag hdr0 Packet.Flag.cts (record r { waits_for_timeout = false }) in
    (bit_and flags fl_timeout, r', cts)
