-- ===== src/Xiomas/Udp/Wait.antt =====
-- When a status packet makes the receiver tell the scanner to wait.
use cosmid.Base.{
  ℕ, ◌+◌, ◌<◌, ◌≡◌, refl, sym, ap, ◌∙◌, arith, Bool, true, not, ◌&&◌, ◌||◌, List, [], ◌∷◌, ◌++◌,
  ltb, leb, u8, add32, append-nil, Bool-cases, inl, inr, if◌then◌else◌,
}
use cosmid.Serio.{Serio, pkt_hdr}
use cosmid.Xiomas.Packet
use cosmid.Xiomas.Packet.{Header, header_bytes, fill_header}
use cosmid.Xiomas.Udp.{
  SocketState, connected, Output, reported, logged, sent, forwarded, UdpReceiver, cts_in, cts,
  send_flag, forward_packet, status_packet,
}
use cosmid.Xiomas.Udp.Outputs.{sends}

sends-append : (out new : List Output) → sends (out ++ new) ≡ sends out ++ sends new
sends-append [] new = refl
sends-append (sent bytes ∷ out) new = ap (λ l. bytes ∷ l) (sends-append out new)
sends-append (reported report ∷ out) new = sends-append out new
sends-append (forwarded spans ∷ out) new = sends-append out new
sends-append (logged bytes ∷ out) new = sends-append out new

-- the message of the gateway that `sendFlag` sends with this flag and count
abbrev pub flag_message : Header → ℕ → ℕ → List ℕ
flag_message hdr0 flag count =
    header_bytes (fill_header hdr0 Packet.Pid.gw_control Packet.Src.gateway flag 0 count).0

module _ (s : Serio) (pkt_type_xio : ℕ) (hdr0 : Header) (connect : SocketState)
    (tx_empty exp_empty : List Output → Bool) where
  cts-connected :
      (r : UdpReceiver) (out : List Output)
      → r.socket_state ≡ connected
      → cts s pkt_type_xio hdr0 connect tx_empty exp_empty r out ≡ (tx_empty out, r)
  unfolding cts cts_in
  cts-connected r out e =
      ap (λ state. cts_in s pkt_type_xio hdr0 connect tx_empty exp_empty state r out) e

  send_flag-connected :
      (flag : ℕ) (r : UdpReceiver)
      → r.socket_state ≡ connected
      → tx_empty [] ≡ true
      → sends (send_flag s pkt_type_xio hdr0 connect tx_empty exp_empty flag r []).1
        ≡ flag_message hdr0 flag (add32 r.block_count 1) ∷ []
  unfolding send_flag
  send_flag-connected flag r e clear =
      let c = cts-connected (record r { block_count = add32 r.block_count 1 }) [] e in
      ground (arith, ap (λ p. p.0) c, clear)

  sends-forward_packet :
      (r : UdpReceiver) (out : List Output) (bytes : List ℕ)
      → sends
          (forward_packet s pkt_type_xio hdr0 connect tx_empty exp_empty r
            (out ++ (logged bytes ∷ []))
            bytes).1
        ≡ sends out
  unfolding forward_packet
  sends-forward_packet r out bytes =
      let spans : List (List ℕ) = pkt_hdr s pkt_type_xio bytes ∷ bytes ∷ [] in
      let out1 : List Output = out ++ (logged bytes ∷ []) in
      let n1 = sends-append out (logged bytes ∷ []) in
      let n2 = sends-append out1 (forwarded spans ∷ []) in
      elim (Bool-cases (r.ack_pending || not (exp_empty out1))) [
        | inl busy ↦ rw busy (n1 ∙ append-nil (sends out))
        | inr free ↦ rw free (n2 ∙ append-nil (sends out1) ∙ n1 ∙ append-nil (sends out))
      ]

  -- While the transmitter is connected and clear to send, a status packet makes the receiver send the
  -- scanner one message, which tells it to wait, if it has counted from 10 to 254 packets before, and
  -- nothing if not: behind 255 packets the count of 8 bits is back at 0, and the scanner is not told.
  pub status_packet-tells :
      (r : UdpReceiver) (bytes : List ℕ)
      → r.socket_state ≡ connected
      → tx_empty [] ≡ true
      → r.pkts_recd < 256
      → sends (status_packet s pkt_type_xio hdr0 connect tx_empty exp_empty r [] bytes).1 ≡ (
          if leb 10 r.pkts_recd && ltb r.pkts_recd 255
          then flag_message hdr0 Packet.Flag.ncts (add32 r.block_count 1) ∷ []
          else [])
  unfolding status_packet
  status_packet-tells r bytes e clear range =
      let r' : UdpReceiver = record r { pkts_recd = u8 (r.pkts_recd + 1) } in
      let told = send_flag s pkt_type_xio hdr0 connect tx_empty exp_empty Packet.Flag.ncts r' [] in
      let one = send_flag-connected Packet.Flag.ncts r' e clear in
      let count : ltb 10 (u8 (r.pkts_recd + 1)) ≡ (leb 10 r.pkts_recd && ltb r.pkts_recd 255) =
        ground (arith, range) in
      elim (Bool-cases (ltb 10 r'.pkts_recd)) [
        | inl many ↦
            let due = sym count ∙ many in
            rw many (rw due (sends-forward_packet told.0 told.1 bytes ∙ one))
        | inr few ↦
            let early = sym count ∙ few in rw few (rw early (sends-forward_packet r' [] bytes))
      ]
