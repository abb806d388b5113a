-- ===== src/Xiomas/Receiver/Stall.antt =====
-- What becomes of the receiver once a packet is complete: nothing sets its state back to xtr_idle.
use cosmid.Base.{
  ℕ, zero, suc, ◌<◌, ◌≡◌, refl, sym, subst, ap, ◌∙◌, arith, Bool, some, List, [], ◌∷◌, ◌++◌, ltb,
  add32, Bool-cases, inl, inr,
}
use cosmid.Dasio.{Dasio, Input, nc}
use cosmid.Serio.{Serio}
use cosmid.Xiomas.Packet
use cosmid.Xiomas.Packet.{Header, header_bytes, fill_header}
use cosmid.Xiomas.Export.{TcpExport}
use cosmid.Xiomas.Receiver.Fields.{
  xtr_mid_pkt, Output, reported, logged, sent, exported, Receiver, get_txmit_size, send_flag,
}
use cosmid.Xiomas.Receiver.Timeout.{protocol_timeout}
use cosmid.Xiomas.Receiver.{
  leave, transfer, pass_mid_pkt, pass_in, pass, after_loop, input_loop, protocol_input,
}

-- in the middle of a packet of which nothing is missing
pub record IsStuck (r : Receiver) : Type 0 where
  pub in_packet : r.state ≡ xtr_mid_pkt
  pub complete : r.bytes_remaining_in_packet ≡ 0

-- nothing but messages that tell the scanner that it may send
abbrev pub OnlyCts : Header → List Output → Type 0
OnlyCts hdr0 [] = Unit
OnlyCts hdr0 (sent bytes ∷ out) =
    ((count : ℕ) × (bytes
        ≡ header_bytes
            (fill_header hdr0 Packet.Pid.gw_control Packet.Src.gateway Packet.Flag.cts 0 count).0))
    × OnlyCts hdr0 out
OnlyCts hdr0 (reported _ ∷ out) = ⊥
OnlyCts hdr0 (logged _ _ ∷ out) = ⊥
OnlyCts hdr0 (exported _ ∷ out) = ⊥

OnlyCts-append :
    (hdr0 : Header) (out more : List Output)
    → OnlyCts hdr0 out
    → OnlyCts hdr0 more
    → OnlyCts hdr0 (out ++ more)
OnlyCts-append hdr0 [] more silent later = later
OnlyCts-append hdr0 (sent bytes ∷ out) more (message, silent) later =
    (message, OnlyCts-append hdr0 out more silent later)
OnlyCts-append hdr0 (reported _ ∷ out) more silent later = absurd silent
OnlyCts-append hdr0 (logged _ _ ∷ out) more silent later = absurd silent
OnlyCts-append hdr0 (exported _ ∷ out) more silent later = absurd silent

module _ (lib : Dasio) (s : Serio) (hdr0 : Header) (obuf_empty : List Output → Bool)
    (exp_obuf_empty : List Output → List (List ℕ) → Bool) where
  pass_mid_pkt-stuck :
      (r : Receiver) (out : List Output)
      → r.bytes_remaining_in_packet ≡ 0
      → pass_mid_pkt lib s hdr0 obuf_empty exp_obuf_empty r out ≡ some (leave, r, out)
  unfolding pass_mid_pkt transfer get_txmit_size
  pass_mid_pkt-stuck r out e = ground arith

  pass-stuck :
      (r : Receiver) (out : List Output)
      → IsStuck r
      → pass lib s hdr0 obuf_empty exp_obuf_empty r out ≡ some (leave, r, out)
  unfolding pass pass_in
  pass-stuck r out stuck =
      subst
        (λ state. pass_in lib s hdr0 obuf_empty exp_obuf_empty state r out ≡ some (leave, r, out))
        (sym stuck.in_packet) (pass_mid_pkt-stuck r out stuck.complete)

  -- A stuck receiver ends the loop at once, whatever its input.
  pub input_loop-stuck :
      (fuel : ℕ) (r : Receiver) (out : List Output)
      → IsStuck r
      → input_loop lib s hdr0 obuf_empty exp_obuf_empty (suc fuel) r out
        ≡ some (some (after_loop lib s hdr0 obuf_empty exp_obuf_empty r out))
  unfolding input_loop
  input_loop-stuck fuel r out stuck = elim (Bool-cases (ltb r.input.cp (nc r.input))) [
    | inl more ↦ rw (more, pass-stuck r out stuck)
    | inr done ↦ rw done
  ]

  pub input_loop-stuck_pos :
      (fuel : ℕ) (r : Receiver) (out : List Output)
      → 0 < fuel
      → IsStuck r
      → input_loop lib s hdr0 obuf_empty exp_obuf_empty fuel r out
        ≡ some (some (after_loop lib s hdr0 obuf_empty exp_obuf_empty r out))
  input_loop-stuck_pos zero r out pos stuck = elim pos [ ]
  input_loop-stuck_pos (suc fuel) r out pos stuck = input_loop-stuck fuel r out stuck

  -- The life of a receiver from `r` on, with all it puts out: calls of `protocol_input` with any
  -- input, calls of `protocol_timeout` up to its `reset`, and whatever the rest of the program does to the export client and the timeout.
  pub data Life (r : Receiver) : Receiver → List Output → Type 0 where
    here : Life r r []
    receives :
        {r1 r2 : Receiver} {out out' : List Output} (i : Input)
        → Life r r1 out
        → protocol_input lib s hdr0 obuf_empty exp_obuf_empty (record r1 { input = i })
          ≡ some (some (r2, out'))
        → Life r r2 (out ++ out')
    times_out :
        {r1 r2 : Receiver} {out : List Output} (fl_timeout flags flags' : ℕ) (cts : Output)
        → Life r r1 out
        → protocol_timeout hdr0 fl_timeout flags r1 ≡ (flags', r2, cts)
        → Life r r2 (out ++ (cts ∷ []))
    elsewhere :
        {r1 : Receiver} {out : List Output} (exp : TcpExport) (waits : Bool)
        → Life r r1 out
        → Life r (record r1 { exp = exp; waits_for_timeout = waits }) out

  protocol_input-stuck :
      (r : Receiver)
      → IsStuck r
      → protocol_input lib s hdr0 obuf_empty exp_obuf_empty r
        ≡ some (some (record r { input = lib.report_ok r.input.cp r.input }, []))
  unfolding protocol_input after_loop
  protocol_input-stuck r stuck = input_loop-stuck _ r [] stuck

  at_input : {r : Receiver} (i : Input) → IsStuck r → IsStuck (record r { input = i })
  at_input i stuck = record { in_packet = stuck.in_packet; complete = stuck.complete }

  stuck_call :
      (r : Receiver) {r' : Receiver} {out : List Output}
      → IsStuck r
      → protocol_input lib s hdr0 obuf_empty exp_obuf_empty r ≡ some (some (r', out))
      → IsStuck r' × (out ≡ [])
  stuck_call r {r'} {out} stuck call = ground (arith, protocol_input-stuck r stuck)

  timeout-stuck :
      (fl_timeout flags : ℕ) (r : Receiver) {flags' : ℕ} {r' : Receiver} {cts : Output}
      → IsStuck r
      → protocol_timeout hdr0 fl_timeout flags r ≡ (flags', r', cts)
      → IsStuck r' × OnlyCts hdr0 (cts ∷ [])
  unfolding protocol_timeout send_flag
  timeout-stuck fl_timeout flags r {flags'} {r'} {cts} stuck call =
      let state : r.state ≡ r'.state = ap (λ p. p.1.state) call in
      let left : r.bytes_remaining_in_packet ≡ r'.bytes_remaining_in_packet =
        ap (λ p. p.1.bytes_remaining_in_packet) call in
      (
        record { in_packet = sym state ∙ stuck.in_packet; complete = sym left ∙ stuck.complete },
        subst (λ message. OnlyCts hdr0 (message ∷ [])) (ap (λ p. p.2) call)
            ((add32 r.block_count 1, refl), tt),
      )

  still_stuck :
      {r r' : Receiver} {out : List Output}
      → IsStuck r
      → Life r r' out
      → IsStuck r' × OnlyCts hdr0 out
  still_stuck stuck here = (stuck, tt)
  still_stuck stuck (receives {r1 = r1} {r2 = r2} {out = out} {out' = out'} i life call) =
      let (still, silent) = still_stuck stuck life in
      let (stuck', silent') = stuck_call (record r1 { input = i }) (at_input i still) call in
      (stuck', OnlyCts-append hdr0 out out' silent (subst (OnlyCts hdr0) (sym silent') tt))
  still_stuck stuck (times_out {r1 = r1} {out = out} fl_timeout flags flags' cts life call) =
      let (still, silent) = still_stuck stuck life in
      let (stuck', told) = timeout-stuck fl_timeout flags r1 still call in
      (stuck', OnlyCts-append hdr0 out (cts ∷ []) silent told)
  still_stuck stuck (elsewhere exp waits life) =
      let (still, silent) = still_stuck stuck life in
      (record { in_packet = still.in_packet; complete = still.complete }, silent)

  -- Once it is in the middle of a packet of which nothing is missing, a receiver stays there, whatever
  -- input it is called with and whatever happens to the export client, as long as no `reset` ends its
  -- connection. It never again logs, exports or reports anything, and sends nothing but the messages of
  -- its timeouts that the scanner may send. And each later call with any input `i` returns at once: it
  -- takes from the input nothing behind the place where it was called.
  pub stuck_for_ever :
      {r r' : Receiver} {out : List Output} (i : Input)
      → IsStuck r
      → Life r r' out
      → IsStuck r'
        × OnlyCts hdr0 out
        × (protocol_input lib s hdr0 obuf_empty exp_obuf_empty (record r' { input = i })
            ≡ some (some (record r' { input = lib.report_ok i.cp i }, [])))
  stuck_for_ever {r' = r'} i stuck life =
      let (still, silent) = still_stuck stuck life in
      (still, silent, protocol_input-stuck (record r' { input = i }) (at_input i still))
