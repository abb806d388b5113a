-- ===== src/Xiomas/Receiver/Fields.antt =====
-- Xiomas/xiomas_export.h and .cc, class xiomas_tcp_rcvr: its fields, what it hands to the outside,
-- and its short methods.
use cosmid.Base.{ℕ, ◌+◌, ◌-◌, Bool, true, Option, none, some, List, leb, ◌==◌, if◌then◌else◌, add32}
use cosmid.Dasio.{Input, nc}
use cosmid.Xiomas.Packet
use cosmid.Xiomas.Packet.{Header, header_bytes, fill_header}
use cosmid.Xiomas.Export.{TcpExport, Effects, max_spkt_data_per_serio_pkt}

-- `MAX_SPKT_LENGTH`
abbrev pub max_spkt_length : ℕ
max_spkt_length = 213183

-- `enum state_t`
pub data State : Type 0 where
  xtr_idle xtr_mid_pkt xtr_lost : State

-- how `log_packet` is told to choose its file
pub data LogMode : Type 0 where
  log_default log_newfile log_curfile : LogMode

-- what the receiver says in the log
pub data Report : Type 0 where
  oversized : Report
  discarded : ℕ → Report
  unexpected_source : ℕ → Report
  unexpected_id : ℕ → Report

-- what happens outside, in order
pub data Output : Type 0 where
  reported : Report → Output
  logged : List ℕ → LogMode → Output  -- log_packet
  sent : List ℕ → Output  -- iwrite, to the scanner
  exported : Effects → Output  -- what the export queue wrote, and whom it told

pub record Receiver : Type 0 where
  pub id : ℕ  -- stands for `this`
  pub input : Input
  pub state : State
  pub bytes_remaining_in_packet : ℕ
  pub bytes_discarding : ℕ
  pub block_count : ℕ
  pub transmitting_current_packet : Bool
  pub waits_for_timeout : Bool  -- TO.Set(120,0) and Fl_Timeout, which `ack` sets
  pub exp : TcpExport

-- `nc-cp >= to_send`, where `to_send` is at most one serial packet's worth
unfoldable pub get_txmit_size : Receiver → ℕ
get_txmit_size r =
    let to_send =
      if leb max_spkt_data_per_serio_pkt r.bytes_remaining_in_packet
      then max_spkt_data_per_serio_pkt
      else r.bytes_remaining_in_packet in
    if leb to_send (nc r.input - r.input.cp) then to_send else 0

-- `ack()`, if this receiver is the one that is told
unfoldable pub acknowledged : Receiver → Option ℕ → Receiver
acknowledged r none = r
acknowledged r (some id) = if id == r.id then record r { waits_for_timeout = true } else r

-- `cp += n`
unfoldable pub advance : Receiver → ℕ → Receiver
advance r n = record r { input = record (r.input) { cp = r.input.cp + n } }

-- `sendFlag`: `hdr` is what the stack variable holds before it is filled
unfoldable pub send_flag : Header → ℕ → Receiver → Receiver × Output
send_flag hdr flag r =
    let count = add32 r.block_count 1 in
    (
      record r { block_count = count },
      sent (header_bytes (fill_header hdr Packet.Pid.gw_control Packet.Src.gateway flag 0 count).0),
    )
