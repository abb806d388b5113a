-- ===== src/Xiomas/Udp/Input.antt =====
-- A datagram, from its first check to what is logged and forwarded.
use cosmid.Base.{
  sym, subst, ℕ, ◌+◌, ◌<◌, ◌^◌, ◌≡◌, refl, ◌∙◌, not, ◌&&◌, ◌||◌, arith, Bool, true, false, List, [],
  ◌∷◌, ltb, ◌==◌, if◌then◌else◌, length, Bool-cases, inl, inr,
}
use cosmid.Serio.{Serio, pkt_hdr}
use cosmid.Xiomas.Packet
use cosmid.Xiomas.Packet.{Header, header_size, header_at, validate_header}
use cosmid.Xiomas.Udp.{
  SocketState, Output, Report, reported, short_header, bad_packet, unexpected_source, UdpReceiver,
  cts, good_packet, protocol_input,
}
use cosmid.Xiomas.Udp.Outputs.{is_status, logs, forwards, unforwarded}
use cosmid.Xiomas.Udp.Flow.{cts_in-same, Counted-from, good_packet-Counted, good_packet-Quiet}

-- what `protocol_input` does with a datagram, for a receiver with this bit and this count
abbrev pub Accounts :
    Serio → ℕ → (List Output → Bool) → Bool → ℕ → List ℕ → UdpReceiver × List Output → Type 0
Accounts s pkt_type_xio exp_empty pending dropped bytes (r', out) =
    let may = not pending && exp_empty (unforwarded out) in
    (logs out ≡ (if is_status bytes then bytes ∷ [] else []))
    × (forwards out ≡ (
        if is_status bytes
        then (if may then (pkt_hdr s pkt_type_xio bytes ∷ bytes ∷ []) ∷ [] else [])
        else []))
    × (r'.packets_dropped
        ≡ (if is_status bytes then (if may then dropped else dropped + 1) else dropped))
    × (r'.ack_pending ≡ (if is_status bytes then pending || may else pending))

module _ (s : Serio) (pkt_type_xio : ℕ) (hdr0 : Header) (connect : SocketState)
    (tx_empty exp_empty : List Output → Bool) where
  -- the receiver once a connection was requested
  requested : UdpReceiver → UdpReceiver
  requested r =
      if r.connect_requested
      then r
      else record ((cts s pkt_type_xio hdr0 connect tx_empty exp_empty r []).1) {
        connect_requested = true;
      }

  requested-same :
      (r : UdpReceiver)
      → ((requested r).packets_dropped ≡ r.packets_dropped)
        × ((requested r).ack_pending ≡ r.ack_pending)
  unfolding requested cts
  requested-same r =
      let same = cts_in-same s pkt_type_xio hdr0 connect tx_empty exp_empty r.socket_state r [] in
      ground (arith, same)

  good_packet-Accounts :
      (r : UdpReceiver) (bytes : List ℕ)
      → r.packets_dropped + 1 < 2 ^ 31
      → ltb (length bytes) header_size ≡ false
      → validate_header (header_at bytes 0) (length bytes) ≡ true
      → ((header_at bytes 0).source == Packet.Src.scanner) ≡ true
      → Accounts s pkt_type_xio exp_empty r.ack_pending r.packets_dropped bytes (
          good_packet s pkt_type_xio hdr0 connect tx_empty exp_empty
            (requested r)
            []
            (header_at bytes 0)
            bytes)
  good_packet-Accounts r bytes few long valid scanner =
      let hdr = header_at bytes 0 in
      let (dropped, pending) = requested-same r in
      elim (Bool-cases (hdr.packet_id == Packet.Pid.xio_status)) [
        | inl status ↦
            let is : is_status bytes ≡ true = ground (arith, long, valid, scanner, status) in
            rw is (
              Counted-from s pkt_type_xio hdr0 connect tx_empty exp_empty {log = []} bytes
                (good_packet s pkt_type_xio hdr0 connect tx_empty exp_empty (requested r) [] hdr
                  bytes)
                pending dropped refl
                (good_packet-Counted s pkt_type_xio hdr0 connect tx_empty exp_empty (requested r)
                  hdr bytes (omega (arith, few, dropped)) status))
        | inr other ↦
            let (log, n, dropped', pending') =
              good_packet-Quiet s pkt_type_xio hdr0 connect tx_empty exp_empty (requested r) hdr
                bytes other in
            let is : is_status bytes ≡ false = ground (arith, long, valid, scanner, other) in
            rw is (log, n, dropped' ∙ dropped, pending' ∙ pending)
      ]

  rejected-Accounts :
      (r : UdpReceiver) (bytes : List ℕ) (report : Report)
      → is_status bytes ≡ false
      → Accounts s pkt_type_xio exp_empty r.ack_pending r.packets_dropped bytes
          (requested r, reported report ∷ [])
  rejected-Accounts r bytes report is =
      rw is (refl, refl, (requested-same r).0, (requested-same r).1)

  -- Let the count of the dropped packets be more than one below the end of an `int`. Whatever the
  -- datagram, `protocol_input` logs the whole datagram exactly if it has a header that is valid for its
  -- length, comes from the scanner and is a status packet, and logs nothing else. It forwards exactly
  -- what it logs, behind the packet header, if no acknowledgement is pending and the output buffer to
  -- tm_ip_export is empty behind what was done before; then an acknowledgement is pending. If not, what
  -- it logs is counted as dropped. Nothing else changes the count or whether one is pending.
  pub protocol_input-Accounts :
      (r : UdpReceiver) (bytes : List ℕ)
      → r.packets_dropped + 1 < 2 ^ 31
      → Accounts s pkt_type_xio exp_empty r.ack_pending r.packets_dropped bytes
          (protocol_input s pkt_type_xio hdr0 connect tx_empty exp_empty r bytes)
  unfolding protocol_input requested
  protocol_input-Accounts r bytes few =
      let Goal : UdpReceiver × List Output → Type 0 =
        λ p. Accounts s pkt_type_xio exp_empty r.ack_pending r.packets_dropped bytes p in
      let call = protocol_input s pkt_type_xio hdr0 connect tx_empty exp_empty r bytes in
      let hdr = header_at bytes 0 in
      elim (Bool-cases (ltb (length bytes) header_size)) [
        | inl short ↦
            let e : call ≡ (requested r, reported short_header ∷ []) = rw short refl in
            subst Goal (sym e) (rejected-Accounts r bytes short_header (ground (arith, short)))
        | inr long ↦ elim (Bool-cases (validate_header hdr (length bytes))) [
          | inr bad ↦
              let e : call ≡ (requested r, reported bad_packet ∷ []) = rw (long, bad) refl in
              subst Goal (sym e) (rejected-Accounts r bytes bad_packet (ground (arith, bad, long)))
          | inl valid ↦ elim (Bool-cases (hdr.source == Packet.Src.scanner)) [
            | inr other ↦
                let e : call ≡ (requested r, reported (unexpected_source hdr.source) ∷ []) =
                  rw (long, valid, other) refl in
                subst Goal (sym e) (
                  rejected-Accounts r bytes (unexpected_source hdr.source)
                    (ground (arith, long, valid, other)))
            | inl scanner ↦
                let e : call
                    ≡ good_packet s pkt_type_xio hdr0 connect tx_empty exp_empty (requested r) []
                        hdr bytes =
                  rw (long, valid, scanner) refl in
                subst Goal (sym e) (good_packet-Accounts r bytes few long valid scanner)
          ]
        ]
      ]
