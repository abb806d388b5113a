-- ===== src/Xiomas/Receiver/Passes.antt =====
-- A pass of the loop of `protocol_input` on any input and in any state.
use cosmid.Base.{
  ℕ, zero, suc, ◌+◌, ◌-◌, ◌≤◌, ◌<◌, ◌≡◌, refl, ap, ◌∙◌, arith, Bool, Option, some, append-nil, List,
  ◌∷◌, ◌++◌, [], ltb, ◌==◌, slice, length, Bool-cases, inl, inr, if◌then◌else◌, subst, sym,
}
use cosmid.Dasio.{Dasio, Finds, nc}
use cosmid.Serio.{Serio}
use cosmid.Xiomas.Packet.{Header, header_size, header_at, get_packet_length, validate_header}
use cosmid.Xiomas.Receiver.Fields.{
  max_spkt_length, State, xtr_idle, xtr_mid_pkt, xtr_lost, log_curfile, log_newfile, log_default,
  Output, logged, Receiver, get_txmit_size, advance,
}
use cosmid.Xiomas.Receiver.{
  Next, again, fits_in_queue, remarks, remark_id, leave, return, Pass, transfer, pass_lost, resync,
  answer_rts, begin_packet, pass_idle, pass_mid_pkt, pass_in,
}
use cosmid.Xiomas.Export.Clients.{IsTame}
use cosmid.Xiomas.Receiver.Settled.{effects_of, effects_of-append, IsQuiet}
use cosmid.Xiomas.Receiver.Transfer.{limit, Transferred, transfer_lem}
use cosmid.Xiomas.Receiver.Kept.{
  weight, Lighter, IsSane, lost_mid_pkt, idle_mid_pkt, effects_of-quiet, entry_silent,
  IsSettled-outside, IsQuiet-like, IsSettled-within, answer_rts-same, remarks_silent, silent,
}

module _ (lib : Dasio) (s : Serio) (hdr0 : Header) (obuf_empty : List Output → Bool)
    (exp_obuf_empty : List Output → List (List ℕ) → Bool) (small : s.sizeof_hdr < 1000) (P : Type 0)
    (c d : Option ℕ) (max : ℕ)
    (below : limit lib s hdr0 obuf_empty exp_obuf_empty small ≤ max) where
  abbrev Sane : Receiver → List Output → Type 0
  Sane r out = IsSane P c d max r out

  -- A pass does not abort, and keeps all in order.
  abbrev pub Passed : Receiver → Option Pass → Type 0
  Passed r result =
      (next : Next) × (r' : Receiver) × (out' : List Output) × (result ≡ some (next, r', out'))
      × Sane r' out'
      × Lighter next r' r

  -- what `transfer` may be called with: a receiver that is quiet if it takes any bytes
  transfer-Sane :
      (r : Receiver) (out : List Output) (n : ℕ)
      → Sane r out
      → r.state ≡ xtr_mid_pkt
      → (P → IsQuiet r)
      → (t : Transferred lib s hdr0 obuf_empty exp_obuf_empty small r out n)
      → Sane t.r' (out ++ t.new)
  transfer-Sane r out n sane mid quiet t = record {
    tame =
        subst (λ l. IsTame c d max t.r'.exp l) (sym (effects_of-append out t.new))
          (t.tame (effects_of out) below sane.asks sane.tame);
    asks = sane.asks ∙ ap some (sym t.moves.same_id);
    settled = λ p. elim (t.quiet (quiet p)) [
      | inl still ↦ inl still
      | inr done ↦ inr (record { in_packet = t.moves.same_state ∙ mid; complete = done })
    ];
  }

  transfer-Passed :
      (r r1 : Receiver) (out : List Output) (n : ℕ)
      → Sane r1 out
      → r1.state ≡ xtr_mid_pkt
      → (0 < n → P → IsQuiet r1)
      → r1.input ≡ r.input
      → weight r1.state ≤ weight r.state
      → r.input.cp < nc r.input
      → Passed r (transfer lib s hdr0 obuf_empty exp_obuf_empty r1 out n)
  unfolding transfer
  transfer-Passed r r1 out zero sane mid quiet same lighter more = (leave, r1, out, refl, sane, tt)
  transfer-Passed r r1 out (suc n) sane mid quiet same lighter more =
      let t =
        transfer_lem lib s hdr0 obuf_empty exp_obuf_empty small r1 out (suc n) sane.tame.valid
          (omega arith) in
      (
        again,
        t.r',
        out ++ t.new,
        t.returns,
        transfer-Sane r1 out (suc n) sane mid (quiet (omega arith)) t,
        omega (
          arith,
          lighter,
          more,
          ap nc same,
          ap (λ i. i.cp) same,
          ap length t.moves.same_buf,
          t.moves.moved,
          ap weight t.moves.same_state,
        ),
      )

  -- Outside of a packet a pass leaves the export client and the timer as they were.
  Sane-like :
      (r r1 : Receiver) (out out' : List Output)
      → Sane r out
      → (P → IsQuiet r)
      → r1.exp ≡ r.exp
      → r1.id ≡ r.id
      → r1.waits_for_timeout ≡ r.waits_for_timeout
      → effects_of out' ≡ effects_of out
      → Sane r1 out'
  Sane-like r r1 out out' sane quiet exp id waits effects = record {
    tame =
        subst (λ e. IsTame c d max e (effects_of out')) (sym exp)
          (subst (λ l. IsTame c d max r.exp l) (sym effects) sane.tame);
    asks = sane.asks ∙ ap some (sym id);
    settled = λ p. inl (IsQuiet-like r r1 exp id waits (quiet p));
  }

  pass_lost-Passed :
      (finds : Finds lib) (r : Receiver) (out : List Output)
      → Sane r out
      → r.state ≡ xtr_lost
      → r.input.cp < nc r.input
      → Passed r (some (pass_lost lib s hdr0 obuf_empty exp_obuf_empty r out))
  unfolding pass_lost
  pass_lost-Passed finds r out sane lost more =
      let quiet : P → IsQuiet r =
        λ p. IsSettled-outside r (λ h. absurd (lost_mid_pkt (sym lost ∙ h))) (sane.settled p) in
      elim (Bool-cases (lib.not_found b'$' r.input).0) [
        | inl missing ↦ rw missing (
          again,
          _,
          _,
          refl,
          Sane-like r _ out out sane quiet refl refl refl refl,
          omega (
            arith,
            more,
            ap weight lost,
            finds.missing b'$' r.input missing,
            ap length (finds.same_input b'$' r.input),
          ),
        )
        | inr there ↦ rw there (
          again,
          _,
          _,
          refl,
          Sane-like r _ out out sane quiet refl refl refl refl,
          (let (past, _, _) = finds.found b'$' r.input there in
              omega (arith, more, past, ap weight lost, ap length (finds.same_input b'$' r.input))),
        )
      ]

  resync-Passed :
      (r r1 : Receiver) (out : List Output)
      → Sane r1 out
      → (P → IsQuiet r1)
      → r1.input ≡ r.input
      → r.input.cp < nc r.input
      → Passed r (some (resync lib s hdr0 obuf_empty exp_obuf_empty r1 out))
  unfolding resync advance
  resync-Passed r r1 out sane quiet same more = (
    again,
    _,
    _,
    refl,
    Sane-like r1 _ out out sane quiet refl refl refl refl,
    omega (arith, more, ap nc same, ap (λ i. i.cp) same),
  )

  begin_packet-Passed :
      (hdr : Header) (r r1 : Receiver) (out : List Output) (n : ℕ)
      → Sane r1 out
      → (P → IsQuiet r1)
      → r1.input ≡ r.input
      → r.input.cp < nc r.input
      → Passed r (begin_packet lib s hdr0 obuf_empty exp_obuf_empty hdr r1 out n)
  unfolding begin_packet
  begin_packet-Passed hdr r r1 out n sane quiet same more =
      let before = out ++ remarks lib s hdr0 obuf_empty exp_obuf_empty hdr r1 in
      let (r2, out2) =
        answer_rts lib s hdr0 obuf_empty exp_obuf_empty hdr (record r1 { bytes_discarding = 0 })
          before in
      let (input, exp, id, waits, effects) =
        answer_rts-same lib s hdr0 obuf_empty exp_obuf_empty hdr
          (record r1 { bytes_discarding = 0 }) before in
      let r3 : Receiver = record r2 {
        state = xtr_mid_pkt;
        transmitting_current_packet = fits_in_queue lib s hdr0 obuf_empty exp_obuf_empty r2;
      } in
      let entry : List Output =
        remark_id lib s hdr0 obuf_empty exp_obuf_empty hdr
        ++ (logged (slice r1.input.buf r1.input.cp n)
              (if ltb 2000 (get_packet_length hdr) then log_newfile else log_default)
            ∷ []) in
      transfer-Passed r r3 (out2 ++ entry) n
        (Sane-like r1 r3 out (out2 ++ entry) sane quiet exp id waits (
          effects_of-quiet out2 entry
            (silent lib s hdr0 obuf_empty exp_obuf_empty hdr (slice r1.input.buf r1.input.cp n) _)
          ∙ (effects
              ∙ effects_of-quiet out _
                  (remarks_silent lib s hdr0 obuf_empty exp_obuf_empty hdr r1))))
        refl (λ pos p. IsQuiet-like r1 r3 exp id waits (quiet p)) (input ∙ same) (omega arith) more

  pass_idle-Passed :
      (r : Receiver) (out : List Output)
      → Sane r out
      → r.state ≡ xtr_idle
      → r.input.cp < nc r.input
      → Passed r (pass_idle lib s hdr0 obuf_empty exp_obuf_empty r out)
  unfolding pass_idle
  pass_idle-Passed r out sane idle more =
      let quiet : P → IsQuiet r =
        λ p. IsSettled-outside r (λ h. absurd (idle_mid_pkt (sym idle ∙ h))) (sane.settled p) in
      let hdr : Header = header_at r.input.buf r.input.cp in
      let r1 : Receiver = record r { bytes_remaining_in_packet = get_packet_length hdr } in
      let sane1 : Sane r1 out = Sane-like r r1 out out sane quiet refl refl refl refl in
      elim (Bool-cases (ltb (nc r.input - r.input.cp) header_size)) [
        | inl short ↦
            rw short (return, _, _, refl, Sane-like r _ out out sane quiet refl refl refl refl, tt)
        | inr full ↦ elim (Bool-cases (validate_header hdr (get_packet_length hdr))) [
          | inr bad ↦ rw (full, bad) (resync-Passed r r1 out sane1 quiet refl more)
          | inl good ↦ elim (Bool-cases (ltb (max_spkt_length + 1000) (get_packet_length hdr))) [
            | inl large ↦
                rw (full, good, large)
                  (resync-Passed r r1 _
                    (Sane-like r r1 out _ sane quiet refl refl refl
                      (effects_of-append out _ ∙ append-nil _))
                    quiet refl more)
            | inr sized ↦ elim (Bool-cases (get_txmit_size r1 == 0)) [
              | inl none_yet ↦ rw (full, good, sized, none_yet) (return, _, _, refl, sane1, tt)
              | inr some_here ↦
                  rw (full, good, sized, some_here)
                    (begin_packet-Passed hdr r r1 out (get_txmit_size r1) sane1 quiet refl more)
            ]
          ]
        ]
      ]

  pub pass_in-Passed :
      (finds : Finds lib) (state : State) (r : Receiver) (out : List Output)
      → r.state ≡ state
      → Sane r out
      → r.input.cp < nc r.input
      → Passed r (pass_in lib s hdr0 obuf_empty exp_obuf_empty state r out)
  unfolding pass_in pass_mid_pkt
  pass_in-Passed finds xtr_lost r out e sane more = pass_lost-Passed finds r out sane e more
  pass_in-Passed finds xtr_idle r out e sane more = pass_idle-Passed r out sane e more
  pass_in-Passed finds xtr_mid_pkt r out e sane more =
      let entry : List Output =
        if get_txmit_size r == 0
        then out
        else out ++ (logged (slice r.input.buf r.input.cp (get_txmit_size r)) log_curfile ∷ []) in
      transfer-Passed r r entry (get_txmit_size r)
        (record {
          tame =
              subst (λ l. IsTame c d max r.exp l)
                (sym (
                  entry_silent (get_txmit_size r == 0) out
                    (slice r.input.buf r.input.cp (get_txmit_size r))))
                sane.tame;
          asks = sane.asks;
          settled = sane.settled;
        })
        e (λ pos p. IsSettled-within r pos (sane.settled p)) refl (omega arith) more
