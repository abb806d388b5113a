-- ===== src/Xiomas/Udp/Runs.antt =====
-- Xiomas/xiomas_export.cc: the UDP side from its construction on, with any datagrams from the scanner
-- and any acknowledgements from tm_ip_export, in any order.
use cosmid.Base.{
  ℕ, ◌+◌, ◌-◌, ◌^◌, ◌<◌, ◌≡◌, refl, ap, ap₂, ◌∙◌, arith, Bool, true, false, not, ◌&&◌, ◌||◌, List,
  [], ◌∷◌, ◌++◌, ◌==◌, length, length-append, if◌then◌else◌, flatten, subst,
}
use cosmid.Serio.{Serio, pkt_hdr}
use cosmid.Xiomas.Packet.{Header}
use cosmid.Xiomas.Udp.{SocketState, Output, UdpReceiver, protocol_input, acknowledge}
use cosmid.Xiomas.Udp.Outputs.{is_status, logs, forwards, unforwarded, logs-append, forwards-append}
use cosmid.Xiomas.Udp.Input.{protocol_input-Accounts}

-- The constructors, over the state of the transmitter's socket.
pub start : SocketState → UdpReceiver
start state = record {
  socket_state = state;
  block_count = 0;
  pkts_recd = 0;
  connect_requested = false;
  ack_pending = false;
  packets_dropped = 0;
}

-- A datagram, with whether the output buffers to the scanner and to tm_ip_export are empty in the
-- course of the call; or what tm_ip_export sends.
pub data Event : Type 0 where
  datagram : List ℕ → (List Output → Bool) → (List Output → Bool) → Event
  acks : List ℕ → Event

-- the datagrams that are status packets from the scanner
abbrev pub statuses : List Event → List (List ℕ)
statuses [] = []
statuses (datagram bytes tx_empty exp_empty ∷ events) =
    (if is_status bytes then bytes ∷ [] else []) ++ statuses events
statuses (acks bytes ∷ events) = statuses events

-- What `Accounts` says of a call, in the words of `Plays` and in numbers, for whether the datagram is a
-- status packet and whether the output buffer is empty.
called :
    (status clear pending : Bool) (dropped : ℕ) (bytes : List ℕ) (packet : List (List ℕ))
    {spans : List (List (List ℕ))} {dropped' : ℕ} {pending' : Bool}
    → spans ≡ (if status then (if not pending && clear then packet ∷ [] else []) else [])
    → dropped'
      ≡ (if status then (if not pending && clear then dropped else dropped + 1) else dropped)
    → pending' ≡ (if status then pending || (not pending && clear) else pending)
    → let may = status && (not pending && clear) in
      (spans ≡ (if may then packet ∷ [] else []))
      × (pending' ≡ (pending || may))
      × (length spans + dropped' ≡ length (if status then bytes ∷ [] else []) + dropped)
called false clear pending dropped bytes packet n count bit =
    (n, ground (arith, bit), omega (arith, ap length n, count))
called true true true dropped bytes packet n count bit = (n, bit, omega (arith, ap length n, count))
called true true false dropped bytes packet n count bit =
    (n, bit, omega (arith, ap length n, count))
called true false true dropped bytes packet n count bit =
    (n, bit, omega (arith, ap length n, count))
called true false false dropped bytes packet n count bit =
    (n, bit, omega (arith, ap length n, count))

module _ (s : Serio) (pkt_type_xio : ℕ) (hdr0 : Header) (connect : SocketState) where
  pub step : Event → UdpReceiver → UdpReceiver × List Output
  step (datagram bytes tx_empty exp_empty) r =
      protocol_input s pkt_type_xio hdr0 connect tx_empty exp_empty r bytes
  step (acks bytes) r = (acknowledge r bytes, [])

  -- what each of the events does
  pub run : List Event → UdpReceiver → UdpReceiver × List (List Output)
  unfolding step
  run [] r = (r, [])
  run (event ∷ events) r =
      let (r', out) = step event r in let (r'', outs) = run events r' in (r'', out ∷ outs)

  -- What the events do, for whether an acknowledgement is pending before them. A status packet of the
  -- scanner is logged, and it is forwarded if none is pending and the output buffer is empty; then one
  -- is pending, until tm_ip_export sends something.
  abbrev pub Plays : Bool → List Event → List (List Output) → Type 0
  Plays pending [] outs = outs ≡ []
  Plays pending (event ∷ events) [] = ⊥
  Plays pending (datagram bytes tx_empty exp_empty ∷ events) (out ∷ outs) =
      let may = is_status bytes && (not pending && exp_empty (unforwarded out)) in
      (logs out ≡ (if is_status bytes then bytes ∷ [] else []))
      × (forwards out ≡ (if may then (pkt_hdr s pkt_type_xio bytes ∷ bytes ∷ []) ∷ [] else []))
      × Plays (pending || may) events outs
  Plays pending (acks bytes ∷ events) (out ∷ outs) =
      (out ≡ []) × Plays (pending && length bytes == 0) events outs

  -- what a run comes to, from `r`
  abbrev Tallies : UdpReceiver → List Event → UdpReceiver × List (List Output) → Type 0
  Tallies r events (r', outs) =
      Plays r.ack_pending events outs
      × (logs (flatten outs) ≡ statuses events)
      × (length (forwards (flatten outs)) + r'.packets_dropped
          ≡ length (statuses events) + r.packets_dropped)

  acknowledge_lem :
      (r : UdpReceiver) (bytes : List ℕ)
      → ((acknowledge r bytes).packets_dropped ≡ r.packets_dropped)
        × ((acknowledge r bytes).ack_pending ≡ (r.ack_pending && length bytes == 0))
  unfolding acknowledge
  acknowledge_lem r bytes = ground arith

  run-from :
      (events : List Event) (r : UdpReceiver)
      → r.packets_dropped + length (statuses events) < 2 ^ 31 - 1
      → Tallies r events (run events r)
  unfolding run flatten
  run-from [] r few = (refl, refl, omega arith)
  run-from (datagram bytes tx_empty exp_empty ∷ events) r few =
      let (r1, out) = protocol_input s pkt_type_xio hdr0 connect tx_empty exp_empty r bytes in
      let (r2, outs) = run events r1 in
      let here : List (List ℕ) = if is_status bytes then bytes ∷ [] else [] in
      let accounts =
        protocol_input-Accounts s pkt_type_xio hdr0 connect tx_empty exp_empty r bytes
          (omega (arith, few)) in
      let (spans, bit, count) =
        called (is_status bytes) (exp_empty (unforwarded out)) r.ack_pending r.packets_dropped bytes
          (pkt_hdr s pkt_type_xio bytes ∷ bytes ∷ []) accounts.1 accounts.2 accounts.3 in
      let (plays, log, total) =
        run-from events r1 (omega (arith, few, count, length-append here (statuses events))) in
      (
        (accounts.0, spans, subst (λ b. Plays b events outs) bit plays),
        logs-append out (flatten outs) ∙ ap₂ ◌++◌ accounts.0 log,
        omega (
          arith,
          count,
          total,
          ap length (forwards-append out (flatten outs)),
          length-append (forwards out) (forwards (flatten outs)),
          length-append here (statuses events),
        ),
      )
  run-from (acks bytes ∷ events) r few =
      let (dropped, bit) = acknowledge_lem r bytes in
      let (plays, log, total) =
        run-from events (acknowledge r bytes) (omega (arith, few, dropped)) in
      (
        (refl, subst (λ b. Plays b events (run events (acknowledge r bytes)).1) bit plays),
        log,
        omega (arith, total, dropped),
      )

  -- Let datagrams come from anywhere, with any content, and tm_ip_export send anything, in any order,
  -- from the construction on, with fewer status packets than the largest `int`. Then the log holds
  -- exactly the status packets of the scanner, in order, and each of them is either forwarded or
  -- counted as dropped. It is forwarded, as its packet header and its bytes, exactly if no
  -- acknowledgement is pending and the output buffer to tm_ip_export is empty; and one is pending from
  -- each packet that is forwarded until tm_ip_export next sends something.
  pub run-Tallies :
      (state : SocketState) (events : List Event)
      → length (statuses events) < 2 ^ 31 - 1
      → let (r', outs) = run events (start state) in
        Plays false events outs
        × (logs (flatten outs) ≡ statuses events)
        × (length (forwards (flatten outs)) + r'.packets_dropped ≡ length (statuses events))
  unfolding start
  run-Tallies state events few =
      let (plays, log, n) = run-from events (start state) (omega (arith, few)) in
      (plays, log, omega (arith, n))
