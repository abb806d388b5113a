-- ===== src/Xiomas/Udp/Flow.antt =====
-- Which datagrams are logged and forwarded, and when the scanner is told to wait.
use cosmid.Base.{
  ltb, u8, u32, ◌||◌, append-nil, add32, ℕ, ◌+◌, ◌<◌, ◌^◌, subst, ◌≡◌, refl, ap, ◌∙◌, arith, Bool,
  true, false, not, ◌&&◌, List, [], ◌∷◌, ◌++◌, ◌==◌, if◌then◌else◌, Bool-cases, inl, inr, bit_and,
}
use cosmid.Serio.{Serio, pkt_hdr}
use cosmid.Xiomas.Packet
use cosmid.Xiomas.Packet.{
  fill_header, header_bytes, Header, header_size, header_at, validate_header,
}
use cosmid.Xiomas.Udp.{
  SocketState, disconnected, connecting, connected, Output, logged, sent, forwarded, UdpReceiver,
  cts_in, cts, send_flag, forward_packet, answer_rts, status_packet, good_packet,
}
use cosmid.Xiomas.Udp.Outputs.{
  logs, forwards, unforwarded, logs-append, forwards-append, unforwarded-same,
  unforwarded-forwarded,
}

-- what a step that neither logs nor forwards keeps
abbrev pub Quiet : Bool → ℕ → List (List ℕ) → UdpReceiver × List Output → Type 0
Quiet pending dropped log (r', out') =
    (logs out' ≡ log)
    × (forwards out' ≡ [])
    × (r'.packets_dropped ≡ dropped)
    × (r'.ack_pending ≡ pending)

-- What a step has that logs one packet, from a receiver with this log and count: the packet is
-- forwarded, as its header and its bytes, if no acknowledgement is pending and the output buffer is
-- empty behind the rest of the output, and counted as dropped if not.
abbrev pub Counted :
    Serio
    → ℕ
    → (List Output → Bool)
    → Bool
    → ℕ
    → List (List ℕ)
    → List ℕ
    → UdpReceiver × List Output
    → Type 0
Counted s pkt_type_xio exp_empty pending dropped log bytes (r', out') =
    let may = not pending && exp_empty (unforwarded out') in
    (logs out' ≡ log ++ (bytes ∷ []))
    × (forwards out' ≡ (if may then (pkt_hdr s pkt_type_xio bytes ∷ bytes ∷ []) ∷ [] else []))
    × (r'.packets_dropped ≡ (if may then dropped else dropped + 1))
    × (r'.ack_pending ≡ (pending || may))

module _ (s : Serio) (pkt_type_xio : ℕ) (hdr0 : Header) (connect : SocketState)
    (tx_empty exp_empty : List Output → Bool) where
  pub cts_in-same :
      (state : SocketState) (r : UdpReceiver) (out : List Output)
      → ((cts_in s pkt_type_xio hdr0 connect tx_empty exp_empty state r out).1.packets_dropped
          ≡ r.packets_dropped)
        × ((cts_in s pkt_type_xio hdr0 connect tx_empty exp_empty state r out).1.ack_pending
            ≡ r.ack_pending)
  unfolding cts_in
  cts_in-same disconnected r out = (refl, refl)
  cts_in-same connecting r out = (refl, refl)
  cts_in-same connected r out = (refl, refl)

  send_flag-Quiet :
      (flag : ℕ) (r : UdpReceiver) (out : List Output)
      → forwards out ≡ []
      → Quiet r.ack_pending r.packets_dropped
          (logs out)
          (send_flag s pkt_type_xio hdr0 connect tx_empty exp_empty flag r out)
  unfolding send_flag cts
  send_flag-Quiet flag r out e =
      let count = add32 r.block_count 1 in
      let same = cts_in-same r.socket_state (record r { block_count = count }) out in
      let hdr : List ℕ =
        header_bytes (fill_header hdr0 Packet.Pid.gw_control Packet.Src.gateway flag 0 count).0 in
      (
        ground (arith, logs-append out (sent hdr ∷ []), append-nil (logs out)),
        ground (arith, forwards-append out (sent hdr ∷ []), append-nil (forwards out), e),
        same.0,
        same.1,
      )

  answer_rts-Quiet :
      (r : UdpReceiver) (out : List Output)
      → forwards out ≡ []
      → Quiet r.ack_pending r.packets_dropped
          (logs out)
          (answer_rts s pkt_type_xio hdr0 connect tx_empty exp_empty r out)
  unfolding answer_rts cts
  answer_rts-Quiet r out e =
      let r' : UdpReceiver =
        (cts_in s pkt_type_xio hdr0 connect tx_empty exp_empty r.socket_state r out).1 in
      let same = cts_in-same r.socket_state r out in
      let flagged = send_flag-Quiet Packet.Flag.cts r' out e in ground (arith, e, same, flagged)

  -- the same of another receiver with this log, this count and this bit
  pub Counted-from :
      {pending pending' : Bool} {dropped dropped' : ℕ} {log log' : List (List ℕ)} (bytes : List ℕ)
      (result : UdpReceiver × List Output)
      → pending ≡ pending'
      → dropped ≡ dropped'
      → log ≡ log'
      → Counted s pkt_type_xio exp_empty pending dropped log bytes result
      → Counted s pkt_type_xio exp_empty pending' dropped' log' bytes result
  Counted-from {pending} {pending'} {dropped} {dropped'} {log} {log'} bytes result p d l counted =
      subst (λ b. Counted s pkt_type_xio exp_empty b dropped' log' bytes result) p
        (subst (λ n. Counted s pkt_type_xio exp_empty pending n log' bytes result) d
          (subst (λ o. Counted s pkt_type_xio exp_empty pending dropped o bytes result) l counted))

  forward_packet-Counted :
      (r : UdpReceiver) (out : List Output) (bytes : List ℕ)
      → r.packets_dropped + 1 < 2 ^ 31
      → forwards out ≡ []
      → Counted s pkt_type_xio exp_empty r.ack_pending r.packets_dropped (logs out) bytes (
          forward_packet s pkt_type_xio hdr0 connect tx_empty exp_empty r
            (out ++ (logged bytes ∷ []))
            bytes)
  unfolding forward_packet
  forward_packet-Counted r out bytes few e =
      let spans : List (List ℕ) = pkt_hdr s pkt_type_xio bytes ∷ bytes ∷ [] in
      let out1 : List Output = out ++ (logged bytes ∷ []) in
      let log1 = logs-append out (logged bytes ∷ []) in
      let log2 = logs-append out1 (forwarded spans ∷ []) in
      let n1 : forwards out1 ≡ [] =
        forwards-append out (logged bytes ∷ []) ∙ append-nil (forwards out) ∙ e in
      let n2 : forwards (out1 ++ (forwarded spans ∷ [])) ≡ spans ∷ [] =
        forwards-append out1 (forwarded spans ∷ []) ∙ ap (λ l. l ++ (spans ∷ [])) n1 in
      let same1 = unforwarded-same out1 n1 in
      let same2 = unforwarded-forwarded out1 spans n1 in
      elim (Bool-cases (r.ack_pending || not (exp_empty out1))) [
        | inl busy ↦
            let held : (not r.ack_pending && exp_empty out1) ≡ false = ground (arith, busy) in
            let one : u32 (r.packets_dropped + 1) ≡ r.packets_dropped + 1 = omega (arith, few) in
            let stays : r.ack_pending ≡ (r.ack_pending || false) = ground arith in
            rw busy (rw (same1, held) (log1, n1, one, stays))
        | inr free ↦
            let may : (not r.ack_pending && exp_empty out1) ≡ true = ground (arith, free) in
            let set : true ≡ (r.ack_pending || true) = ground arith in
            rw free (rw (same2, may) (log2 ∙ append-nil (logs out1) ∙ log1, n2, refl, set))
      ]

  status_packet-Counted :
      (r : UdpReceiver) (out : List Output) (bytes : List ℕ)
      → r.packets_dropped + 1 < 2 ^ 31
      → forwards out ≡ []
      → Counted s pkt_type_xio exp_empty r.ack_pending r.packets_dropped
          (logs out)
          bytes
          (status_packet s pkt_type_xio hdr0 connect tx_empty exp_empty r out bytes)
  unfolding status_packet
  status_packet-Counted r out bytes few e =
      let r' : UdpReceiver = record r { pkts_recd = u8 (r.pkts_recd + 1) } in
      let told = send_flag s pkt_type_xio hdr0 connect tx_empty exp_empty Packet.Flag.ncts r' out in
      let (log, n, dropped, pending) = send_flag-Quiet Packet.Flag.ncts r' out e in
      elim (Bool-cases (ltb 10 r'.pkts_recd)) [
        | inr few' ↦ rw few' (forward_packet-Counted r' out bytes few e)
        | inl many ↦ rw many (
            Counted-from bytes
              (forward_packet s pkt_type_xio hdr0 connect tx_empty exp_empty told.0
                (told.1 ++ (logged bytes ∷ [])) bytes)
              pending dropped log
              (forward_packet-Counted told.0 told.1 bytes (omega (arith, few, dropped)) n))
      ]

  -- what a datagram from the scanner does, before its ID is looked at
  answered : UdpReceiver → Header → UdpReceiver × List Output
  answered r hdr =
      if not (bit_and hdr.flags Packet.Flag.rts == 0)
      then answer_rts s pkt_type_xio hdr0 connect tx_empty exp_empty r []
      else (r, [])

  answered-Quiet :
      (r : UdpReceiver) (hdr : Header) → Quiet r.ack_pending r.packets_dropped [] (answered r hdr)
  unfolding answered
  answered-Quiet r hdr = elim (Bool-cases (not (bit_and hdr.flags Packet.Flag.rts == 0))) [
    | inl asked ↦ rw asked (answer_rts-Quiet r [] refl)
    | inr quiet ↦ rw quiet (refl, refl, refl, refl)
  ]

  pub good_packet-Counted :
      (r : UdpReceiver) (hdr : Header) (bytes : List ℕ)
      → r.packets_dropped + 1 < 2 ^ 31
      → (hdr.packet_id == Packet.Pid.xio_status) ≡ true
      → Counted s pkt_type_xio exp_empty r.ack_pending r.packets_dropped [] bytes
          (good_packet s pkt_type_xio hdr0 connect tx_empty exp_empty r [] hdr bytes)
  unfolding good_packet answered
  good_packet-Counted r hdr bytes few e =
      let a = answered r hdr in
      let (log, n, dropped, pending) = answered-Quiet r hdr in
      rw e (
        Counted-from bytes
          (status_packet s pkt_type_xio hdr0 connect tx_empty exp_empty a.0 a.1 bytes) pending
          dropped log (status_packet-Counted a.0 a.1 bytes (omega (arith, few, dropped)) n))

  pub good_packet-Quiet :
      (r : UdpReceiver) (hdr : Header) (bytes : List ℕ)
      → (hdr.packet_id == Packet.Pid.xio_status) ≡ false
      → Quiet r.ack_pending r.packets_dropped []
          (good_packet s pkt_type_xio hdr0 connect tx_empty exp_empty r [] hdr bytes)
  unfolding good_packet answered
  good_packet-Quiet r hdr bytes e = rw e (answered-Quiet r hdr)
