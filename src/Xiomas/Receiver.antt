-- ===== src/Xiomas/Receiver.antt =====
-- Xiomas/xiomas_export.h and .cc, class xiomas_tcp_rcvr: the stream of image packets from the
-- scanner is cut into packets, logged, and handed to the export queue. `none` is an abort.
pub mod Stall
pub mod Stream
pub mod Settled
pub mod Timeout
pub mod Transfer
pub mod Opening
pub mod Packets
pub mod Kept
pub mod Passes
pub mod Calls
mod Tests
pub mod Fields
use cosmid.Xiomas.Receiver.Fields.{
  max_spkt_length, State, xtr_idle, xtr_mid_pkt, xtr_lost, LogMode, log_default, log_newfile,
  log_curfile, oversized, discarded, unexpected_source, unexpected_id, Output, reported, logged,
  sent, exported, Receiver, get_txmit_size, acknowledged, advance, send_flag,
}
use cosmid.Base.{
  ℕ, zero, suc, ◌+◌, ◌-◌, ◌*◌, ◌/◌, bit_and, Bool, true, false, not, ◌&&◌, Option, none, some, List,
  [], ◌∷◌, ◌++◌, ltb, leb, ◌==◌, if◌then◌else◌, ◌>>=◌, length, slice, add32, u32,
}
use cosmid.Dasio.{Dasio, Input, nc}
use cosmid.Serio.{Serio}
use cosmid.Xiomas.Packet
use cosmid.Xiomas.Packet.{
  Header, header_size, header_at, header_bytes, get_packet_length, validate_header, fill_header,
}
use cosmid.Xiomas.Circ.{circ_space}
use cosmid.Xiomas.Export.{TcpExport, max_spkt_data_per_serio_pkt, forward_packet, request_ack}

-- how a pass through the loop of `protocol_input` ends: with another pass, behind the loop, or by
-- a return from within it
pub data Next : Type 0 where
  again leave return : Next

abbrev pub Pass : Type 0
Pass = Next × Receiver × List Output

-- The library's operations and its output buffers are parameters: `obuf_empty` is that of the
-- receiver and `exp_obuf_empty` that of the export client, after what was written so far.
module _ (lib : Dasio) (s : Serio) (hdr0 : Header) (obuf_empty : List Output → Bool)
    (exp_obuf_empty : List Output → List (List ℕ) → Bool) where
  -- the end of a pass, for `txmit_size` bytes at `cp`
  pub transfer : Receiver → List Output → ℕ → Option Pass
  unfolding acknowledged advance
  transfer r out txmit_size = if txmit_size == 0 then some (leave, r, out) else do
    (r', out') ←
        if r.transmitting_current_packet
        then (do
          (exp, effects) ←
              forward_packet s (exp_obuf_empty out) r.exp (slice r.input.buf r.input.cp txmit_size)
          some
              (acknowledged (record r { exp = exp }) effects.acked, out ++ (exported effects ∷ [])))
        else some (r, out)
    let left = r'.bytes_remaining_in_packet - txmit_size
    let r'' = record (advance r' txmit_size) { bytes_remaining_in_packet = left }
    some (again, if left == 0 then record r'' { exp = request_ack r''.exp r''.id } else r'', out')

  -- `case xtr_lost`
  pub pass_lost : Receiver → List Output → Pass
  pass_lost r out =
      let (missing, input) = lib.not_found b'$' r.input in
      if missing
      then (
        again,
        record r {
          input = input;
          bytes_discarding = add32 r.bytes_discarding (nc r.input - r.input.cp);
        },
        out,
      )
      else (
        again,
        record r {
          input = record input { cp = input.cp - 1 };
          bytes_discarding = add32 r.bytes_discarding (input.cp - 1 - r.input.cp);
          state = xtr_idle;
        },
        out,
      )

  -- a header that is no good: look for the next start one byte on
  pub resync : Receiver → List Output → Pass
  unfolding advance
  resync r out = (again, record (advance r 1) { state = xtr_lost }, out)

  -- whether the packet, cut into serial packets with a header each, fits in the export queue
  pub fits_in_queue : Receiver → Bool
  fits_in_queue r =
      let n_pkts =
        u32 (r.bytes_remaining_in_packet + max_spkt_data_per_serio_pkt - 1)
        / max_spkt_data_per_serio_pkt in
      leb (u32 (r.bytes_remaining_in_packet + n_pkts * s.sizeof_hdr)) (circ_space r.exp.queue)

  -- what `case xtr_idle` reports once it has a good header
  pub remarks : Header → Receiver → List Output
  remarks hdr r =
      (if r.bytes_discarding == 0 then [] else reported (discarded r.bytes_discarding) ∷ [])
      ++ (if hdr.source == Packet.Src.opu then [] else reported (unexpected_source hdr.source) ∷ [])

  pub remark_id : Header → List Output
  remark_id hdr =
      if leb Packet.Pid.fire_layer hdr.packet_id && leb hdr.packet_id Packet.Pid.lw_band
      then []
      else reported (unexpected_id hdr.packet_id) ∷ []

  -- a request to send is answered if the receiver's output buffer is empty
  pub answer_rts : Header → Receiver → List Output → Receiver × List Output
  unfolding send_flag
  answer_rts hdr r out =
      let (r', cts) = send_flag hdr0 Packet.Flag.cts r in
      if not (bit_and hdr.flags Packet.Flag.rts == 0) && obuf_empty out
      then (r', out ++ (cts ∷ []))
      else (r, out)

  -- `case xtr_idle` from "Now we are committed" on
  pub begin_packet : Header → Receiver → List Output → ℕ → Option Pass
  begin_packet hdr r out txmit_size =
      let (r', out') = answer_rts hdr (record r { bytes_discarding = 0 }) (out ++ remarks hdr r) in
      let mode = if ltb 2000 (get_packet_length hdr) then log_newfile else log_default in
      transfer (record r' { state = xtr_mid_pkt; transmitting_current_packet = fits_in_queue r' })
        (out' ++ (remark_id hdr ++ (logged (slice r.input.buf r.input.cp txmit_size) mode ∷ [])))
        txmit_size

  -- `case xtr_idle`
  pub pass_idle : Receiver → List Output → Option Pass
  pass_idle r out =
      if ltb (nc r.input - r.input.cp) header_size
      then some (return, record r { input = lib.consume r.input.cp r.input }, out)
      else let hdr = header_at r.input.buf r.input.cp in
        let r' : Receiver = record r { bytes_remaining_in_packet = get_packet_length hdr } in
        if not (validate_header hdr (get_packet_length hdr))
        then some (resync r' out)
        else if ltb (max_spkt_length + 1000) (get_packet_length hdr)
        then some (resync r' (out ++ (reported oversized ∷ [])))
        else if get_txmit_size r' == 0
        then some (return, r', out)
        else begin_packet hdr r' out (get_txmit_size r')

  -- `case xtr_mid_pkt`
  pub pass_mid_pkt : Receiver → List Output → Option Pass
  pass_mid_pkt r out =
      let txmit_size = get_txmit_size r in
      transfer r
        (if txmit_size == 0
          then out
          else out ++ (logged (slice r.input.buf r.input.cp txmit_size) log_curfile ∷ []))
        txmit_size

  pub pass_in : State → Receiver → List Output → Option Pass
  pass_in xtr_lost r out = some (pass_lost r out)
  pass_in xtr_idle r out = pass_idle r out
  pass_in xtr_mid_pkt r out = pass_mid_pkt r out

  pub pass : Receiver → List Output → Option Pass
  pass r out = pass_in r.state r out

  -- behind the loop
  pub after_loop : Receiver → List Output → Receiver × List Output
  after_loop r out = (record r { input = lib.report_ok r.input.cp r.input }, out)

  -- the loop of `protocol_input`, on fuel: `some none` is that the fuel ran out
  pub input_loop : ℕ → Receiver → List Output → Option (Option (Receiver × List Output))
  input_loop zero r out = some none
  input_loop (suc fuel) r out =
      if ltb r.input.cp (nc r.input)
      then (do
        (next, r', out') ← pass r out
        elim next [
          | again ↦ input_loop fuel r' out'
          | leave ↦ some (some (after_loop r' out'))
          | return ↦ some (some (r', out'))
        ])
      else some (some (after_loop r out))

  -- Each pass that is followed by another moves `cp` on, or leaves `xtr_lost` where it stands.
  pub protocol_input : Receiver → Option (Option (Receiver × List Output))
  protocol_input r = input_loop (suc (2 * nc r.input + 1)) r []
