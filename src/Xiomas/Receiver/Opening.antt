-- ===== src/Xiomas/Receiver/Opening.antt =====
-- The first pass over a packet whose header is at `cp`: what it sets up and what it puts out.
use cosmid.Base.{
  ℕ, ◌+◌, ◌-◌, ◌≤◌, ◌<◌, ◌≡◌, refl, sym, subst, arith, Bool, true, false, List, [], ◌∷◌, ◌++◌,
  append-nil, ltb, ◌==◌, if◌then◌else◌, slice,
}
use cosmid.Dasio.{Dasio, nc}
use cosmid.Serio.{Serio}
use cosmid.Xiomas.Packet.{Header, header_at, header_size, get_packet_length, validate_header}
use cosmid.Xiomas.Receiver.Fields.{
  max_spkt_length, xtr_idle, xtr_mid_pkt, log_default, log_newfile, Output, logged, Receiver,
  get_txmit_size, send_flag,
}
use cosmid.Xiomas.Receiver.{
  fits_in_queue, remarks, remark_id, answer_rts, begin_packet, pass_idle, transfer, pass_in, pass,
}
use cosmid.Xiomas.Receiver.Transfer.{logged_bytes}
use cosmid.Xiomas.Receiver.Stream.{piece, get_txmit_size-piece}

-- a packet of `n` bytes, with a valid header, lies whole in the input at `cp`
pub record HoldsPacket (r : Receiver) (n : ℕ) : Type 0 where
  pub announced : get_packet_length (header_at r.input.buf r.input.cp) ≡ n
  pub valid_header : validate_header (header_at r.input.buf r.input.cp) n ≡ true
  pub some_bytes : 0 < n
  pub not_oversized : n ≤ max_spkt_length + 1000
  pub header_here : r.input.cp + header_size ≤ nc r.input
  pub all_here : r.input.cp + n ≤ nc r.input

module _ (lib : Dasio) (s : Serio) (hdr0 : Header) (obuf_empty : List Output → Bool)
    (exp_obuf_empty : List Output → List (List ℕ) → Bool) (r : Receiver) (n : ℕ)
    (holds : HoldsPacket r n) where
  hdr : Header
  hdr = header_at r.input.buf r.input.cp

  -- the receiver as `case xtr_idle` has it when it is committed, and what it has put out
  answered : Receiver × List Output
  unfolding hdr
  answered =
      answer_rts lib s hdr0 obuf_empty exp_obuf_empty hdr
        (record r { bytes_remaining_in_packet = n; bytes_discarding = 0 })
        (remarks lib s hdr0 obuf_empty exp_obuf_empty hdr
          (record r { bytes_remaining_in_packet = n }))

  pub begun : Receiver
  unfolding answered
  begun = record (answered.0) {
    state = xtr_mid_pkt;
    transmitting_current_packet = fits_in_queue lib s hdr0 obuf_empty exp_obuf_empty answered.0;
  }

  -- what is put out before the bytes are taken
  pub preface : List Output
  unfolding answered hdr
  preface =
      answered.1
      ++ (remark_id lib s hdr0 obuf_empty exp_obuf_empty hdr
          ++ (logged
                (slice r.input.buf r.input.cp (piece (record r { bytes_remaining_in_packet = n })))
                (if ltb 2000 n then log_newfile else log_default)
              ∷ []))

  pub size : ℕ
  size = piece (record r { bytes_remaining_in_packet = n })

  pass_idle-begun :
      pass_idle lib s hdr0 obuf_empty exp_obuf_empty r []
      ≡ transfer lib s hdr0 obuf_empty exp_obuf_empty begun preface size
  unfolding pass_idle begin_packet begun preface size
  pass_idle-begun =
      let here : ltb (nc r.input - r.input.cp) header_size ≡ false =
        ground (arith, holds.header_here) in
      let sized : ltb (max_spkt_length + 1000) n ≡ false = ground (arith, holds.not_oversized) in
      let taken : get_txmit_size (record r { bytes_remaining_in_packet = n })
          ≡ piece (record r { bytes_remaining_in_packet = n }) =
        get_txmit_size-piece (record r { bytes_remaining_in_packet = n }) holds.all_here in
      let more : (piece (record r { bytes_remaining_in_packet = n }) == 0) ≡ false =
        ground (arith, holds.some_bytes) in
      rw (here, holds.announced, holds.valid_header, sized, taken, more) refl

  -- what setting up the packet leaves as it was
  pub begun-same :
      (begun.input ≡ r.input)
      × (begun.id ≡ r.id)
      × (begun.exp ≡ r.exp)
      × (begun.state ≡ xtr_mid_pkt)
      × (begun.bytes_remaining_in_packet ≡ n)
  unfolding begun answer_rts send_flag
  begun-same = ground arith

  pub size_bounds : (0 < size) × (size ≤ n)
  unfolding size
  size_bounds = omega (arith, holds.some_bytes)

  pub logged-preface : logged_bytes preface ≡ slice r.input.buf r.input.cp size
  unfolding preface answer_rts send_flag remark_id remarks size
  logged-preface = ground (
    arith,
    append-nil (slice r.input.buf r.input.cp (piece (record r { bytes_remaining_in_packet = n }))),
  )

  pub pass-begun :
      r.state ≡ xtr_idle
      → pass lib s hdr0 obuf_empty exp_obuf_empty r []
        ≡ transfer lib s hdr0 obuf_empty exp_obuf_empty begun preface size
  unfolding pass pass_in
  pass-begun idle =
      subst
        (λ state.
          pass_in lib s hdr0 obuf_empty exp_obuf_empty state r []
          ≡ transfer lib s hdr0 obuf_empty exp_obuf_empty begun preface size)
        (sym idle) pass_idle-begun
