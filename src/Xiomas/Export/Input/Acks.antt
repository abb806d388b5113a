-- ===== src/Xiomas/Export/Input/Acks.antt =====
-- `app_input` on acknowledgements, and on a packet of another type.
use cosmid.Base.{
  ℕ, zero, suc, ◌+◌, ◌-◌, ◌<◌, ◌≡◌, refl, sym, ap, ◌∙◌, arith, Bool, true, false, Option, none,
  some, List, [], ◌∷◌, ◌++◌, ltb, ◌==◌, append_assoc, lt→ltb, append-nil, subst, if◌then◌else◌,
}
use cosmid.Dasio.{Dasio, Input, nc}
use cosmid.Serio.{Serio}
use cosmid.Serio.Control.{Control, Acks, rest_of, over, partial, ack}
use cosmid.Xiomas.Circ.Inv.{IsValid}
use cosmid.Xiomas.Export.{TcpExport, Effects}
use cosmid.Xiomas.Export.Drain.{Drains}
use cosmid.Xiomas.Export.Input.Handles.{
  effects_of, effects_of-append, sent_bytes, Sends, Handles, none_left, handled, Handles-Sends,
}
use cosmid.Xiomas.Export.Forward.{acked, handle_ack_lem}
use cosmid.Xiomas.Export.Input.{
  ack_exceeds, unsupported_type, Output, reported, processed, take_ack, take_packet, turn,
  input_loop, app_input,
}

module _ (lib : Dasio) (s : Serio) (control : Control)
    (obuf_empty : List Output → List (List ℕ) → Bool) where
  take_ack-Drains :
      (e : TcpExport) (out : List Output) (n : ℕ)
      → s.sizeof_hdr < 1000
      → IsValid e.queue
      → (e' : TcpExport) × (complaint : List Output) × (effects : Effects) × (take_ack lib s control
            obuf_empty e out n
          ≡ some (e', (out ++ complaint) ++ (processed effects ∷ [])))
        × (effects_of complaint ≡ [])
        × Drains s (obuf_empty (out ++ complaint)) (acked e n) e' effects
  unfolding take_ack
  take_ack-Drains e out n small v =
      let complaint : List Output =
        if ltb e.queue.outstanding_bytes n then reported (ack_exceeds n) ∷ [] else [] in
      let quiet : effects_of complaint ≡ [] = ground arith in
      let (e', effects, run, d) = handle_ack_lem s (obuf_empty (out ++ complaint)) e n small v in
      (e', complaint, effects, rw run refl, quiet, d)

  effects_of-taken :
      (out complaint : List Output) (effects : Effects)
      → effects_of complaint ≡ []
      → effects_of ((out ++ complaint) ++ (processed effects ∷ []))
        ≡ effects_of out ++ (effects ∷ [])
  effects_of-taken out complaint effects quiet =
      rw
        (
          effects_of-append (out ++ complaint) (processed effects ∷ []),
          effects_of-append out complaint,
          quiet,
          append-nil (effects_of out),
        )
        refl

  turn-ack :
      (e e' : TcpExport) (out out' : List Output) (payload : List ℕ) (i' : Input)
      → control.subtype payload ≡ control.ctrl_subtype_ack
      → take_ack lib s control obuf_empty e out (control.length' payload) ≡ some (e', out')
      → turn lib s control obuf_empty e out
          (some (control.pkt_type_ctrl, control.sizeof_payload, payload), i')
        ≡ some (true, e', out', lib.report_ok (s.sizeof_hdr + control.sizeof_payload) i')
  unfolding turn take_packet
  turn-ack e e' out out' payload i' sub run =
      let type : (control.pkt_type_ctrl == control.pkt_type_ctrl) ≡ true = ground arith in
      let size : (control.sizeof_payload == control.sizeof_payload) ≡ true = ground arith in
      let subtype : (control.subtype payload == control.ctrl_subtype_ack) ≡ true =
        ground (arith, sub) in
      rw (type, size, subtype, run) refl

  abbrev Handled :
      TcpExport
      → List Output
      → List ℕ
      → Input
      → Option (Option (TcpExport × List Output × Input))
      → Type 0
  Handled e out ns left result =
      (e' : TcpExport) × (out' : List Output) × (i' : Input) × (effects : List Effects) × (result
        ≡ some (some (e', out', i')))
      × (effects_of out' ≡ effects_of out ++ effects)
      × Handles s obuf_empty e ns e' effects
      × (i' ≡ left)

  input_loop-Handles :
      (fuel : ℕ) (e : TcpExport) (out : List Output) (i : Input) (ns : List ℕ)
      → s.sizeof_hdr < 1000
      → IsValid e.queue
      → nc i - i.cp < fuel
      → (acks : Acks lib s control i ns)
      → Handled e out ns (rest_of acks) (input_loop lib s control obuf_empty fuel e out i)
  unfolding input_loop turn
  input_loop-Handles zero e out i ns small v enough acks = absurd (omega arith)
  input_loop-Handles (suc fuel) e out _ _ small v enough (over i end) =
      let stop : ltb i.cp (nc i) ≡ false = ground (arith, end) in
      (e, out, i, [], rw stop refl, sym (append-nil (effects_of out)), none_left e, refl)
  input_loop-Handles (suc fuel) e out _ _ small v enough (partial i i' more scan) = (
    e,
    out,
    i',
    [],
    rw (lt→ltb i.cp (nc i) more, scan) refl,
    sym (append-nil (effects_of out)),
    none_left e,
    refl,
  )
  input_loop-Handles (suc fuel) e out _ _ small v enough
        (ack i i' payload ns' more scan sub less acks) =
      let (e1, complaint, effects, run, quiet, d) =
        take_ack-Drains e out (control.length' payload) small v in
      let out1 : List Output = (out ++ complaint) ++ (processed effects ∷ []) in
      let next : Input = lib.report_ok (s.sizeof_hdr + control.sizeof_payload) i' in
      let (e2, out2, i2, later, run2, log2, rest, left) =
        input_loop-Handles fuel e1 out1 next ns' small d.drained.valid (omega (arith, less, enough))
          acks in
      (
        e2,
        out2,
        i2,
        effects ∷ later,
        rw (lt→ltb i.cp (nc i) more, scan, turn-ack e e1 out out1 payload i' sub run) run2,
        log2
            ∙ ap (λ l. l ++ later) (effects_of-taken out complaint effects quiet)
            ∙ append_assoc (effects_of out) (effects ∷ []) later,
        handled (out ++ complaint) e e1 (control.length' payload) effects d rest,
        left,
      )

  -- `app_input` handles the acknowledgements of its input, one after the other.
  pub app_input-Handles :
      (e : TcpExport) (i : Input) (ns : List ℕ)
      → s.sizeof_hdr < 1000
      → IsValid e.queue
      → (acks : Acks lib s control i ns)
      → (e' : TcpExport) × (out : List Output) × (i' : Input) × (app_input lib s control obuf_empty
            e i
          ≡ some (some (e', out, i')))
        × Handles s obuf_empty e ns e' (effects_of out)
        × (i' ≡ rest_of acks)
  unfolding app_input
  app_input-Handles e i ns small v acks =
      let (e', out, i', effects, run, log, handles, left) =
        input_loop-Handles (suc (nc i)) e [] i ns small v (omega arith) acks in
      (e', out, i', run, subst (λ l. Handles s obuf_empty e ns e' l) (sym log) handles, left)

  -- Let the input be acknowledgements, any number of them, in front of nothing or of a part of a packet,
  -- let `report_ok` take each from the input, and let the queue be well formed and a serial header have
  -- less than 1000 bytes. Then `app_input` returns, and leaves of the input what is behind the
  -- last of them. Each was handled in turn: it was taken off the count of unacknowledged bytes, down to
  -- 0, and then the queue was drained as far as the flow control allowed. What the queue held is what was
  -- sent meanwhile, in order, followed by what it still holds. The count of unacknowledged bytes has
  -- grown by at most what was sent, and gone down by at most what was acknowledged beyond that.
  pub app_input-Sends :
      (e : TcpExport) (i : Input) (ns : List ℕ)
      → s.sizeof_hdr < 1000
      → IsValid e.queue
      → (acks : Acks lib s control i ns)
      → (e' : TcpExport) × (out : List Output) × (i' : Input) × (app_input lib s control obuf_empty
            e i
          ≡ some (some (e', out, i')))
        × Handles s obuf_empty e ns e' (effects_of out)
        × Sends e ns e' (sent_bytes (effects_of out))
        × (i' ≡ rest_of acks)
  app_input-Sends e i ns small v acks =
      let (e', out, i', run, handles, left) = app_input-Handles e i ns small v acks in
      (e', out, i', run, handles, Handles-Sends s obuf_empty v handles, left)

  -- Let the library leave the input as it is when it has read a packet, as the `++cp` for a packet of a
  -- wrong length supposes. Then a packet that is no control packet is never got past: whatever the
  -- number of turns, the loop of `app_input` has not ended.
  pub input_loop_stalls :
      (fuel : ℕ) (e : TcpExport) (out : List Output) (i : Input) (type length'' : ℕ)
      (payload : List ℕ)
      → i.cp < nc i
      → control.not_serio_pkt i ≡ (some (type, length'', payload), i)
      → (type == control.pkt_type_ctrl) ≡ false
      → input_loop lib s control obuf_empty fuel e out i ≡ some none
  unfolding input_loop turn take_packet
  input_loop_stalls zero e out i type length'' payload more scan other = refl
  input_loop_stalls (suc fuel) e out i type length'' payload more scan other =
      rw (lt→ltb i.cp (nc i) more, scan, other)
        (input_loop_stalls fuel e (out ++ (reported (unsupported_type type) ∷ [])) i type length''
          payload more scan other)
