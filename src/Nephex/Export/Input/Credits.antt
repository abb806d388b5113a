-- ===== src/Nephex/Export/Input/Credits.antt =====
-- `app_input` on acknowledgements.
use cosmid.Base.{
  ℕ, zero, suc, ◌+◌, ◌-◌, ◌<◌, ◌≡◌, none, Option, Bool, ap, refl, ◌∙◌, arith, true, false, some,
  List, [], ◌∷◌, ltb, ◌==◌, lt→ltb, sum, append-nil, append_assoc, ap₂, ◌++◌, if◌then◌else◌,
}
use cosmid.Dasio.{Dasio, Input, nc}
use cosmid.Serio.{Serio}
use cosmid.Serio.Control.{Control, Acks, over, partial, ack}
use cosmid.Nephex.Export.Input.{
  Report, ack_exceeds, take_ack, take_packet, turn, input_loop, app_input,
}

-- the acknowledgements that are larger than what is left of the count, in order
abbrev pub excesses : ℕ → List ℕ → List Report
excesses outstanding [] = []
excesses outstanding (n ∷ ns) =
    (if ltb outstanding n then ack_exceeds n ∷ [] else []) ++ excesses (outstanding - n) ns

module _ (lib : Dasio) (s : Serio) (control : Control) where
  turn-ack :
      (outstanding : ℕ) (out : List Report) (payload : List ℕ) (i' : Input)
      → control.subtype payload ≡ control.ctrl_subtype_ack
      → turn lib s control outstanding out
          (some (control.pkt_type_ctrl, control.sizeof_payload, payload), i')
        ≡ (
          true,
          outstanding - control.length' payload,
          out
              ++ (if ltb outstanding (control.length' payload)
                  then ack_exceeds (control.length' payload) ∷ []
                  else []),
          lib.report_ok (s.sizeof_hdr + control.sizeof_payload) i',
        )
  unfolding turn take_packet take_ack
  turn-ack outstanding out payload i' sub =
      let type : (control.pkt_type_ctrl == control.pkt_type_ctrl) ≡ true = ground arith in
      let size : (control.sizeof_payload == control.sizeof_payload) ≡ true = ground arith in
      let subtype : (control.subtype payload == control.ctrl_subtype_ack) ≡ true =
        ground (arith, sub) in
      let left : (if ltb outstanding (control.length' payload)
            then 0
            else outstanding - control.length' payload)
          ≡ outstanding - control.length' payload =
        ground arith in
      rw (type, size, subtype, left) refl

  turn-none :
      (outstanding : ℕ) (out : List Report) (i' : Input)
      → turn lib s control outstanding out (none, i') ≡ (false, outstanding, out, i')
  unfolding turn
  turn-none outstanding out i' = refl

  -- how the loop goes on behind a turn
  go_on : ℕ → Bool × ℕ × List Report × Input → Option (ℕ × List Report × Input)
  go_on fuel (more, outstanding, out, i) =
      let rest = input_loop lib s control fuel outstanding out i in
      if more then rest else some (outstanding, out, i)

  input_loop-Acks :
      (fuel outstanding : ℕ) (out : List Report) (i : Input) (ns : List ℕ)
      → nc i - i.cp < fuel
      → Acks lib s control i ns
      → (i' : Input) × (input_loop lib s control fuel outstanding out i
          ≡ some (outstanding - sum ns, out ++ excesses outstanding ns, i'))
  unfolding input_loop go_on
  input_loop-Acks zero outstanding out i ns enough acks = absurd (omega arith)
  input_loop-Acks (suc fuel) outstanding out _ _ enough (over i end) =
      let stop : ltb i.cp (nc i) ≡ false = ground (arith, end) in
      let all : outstanding - 0 ≡ outstanding = omega arith in
      (i, rw (stop, append-nil out, all) refl)
  input_loop-Acks (suc fuel) outstanding out _ _ enough (partial i i' more scan) =
      let all : outstanding - 0 ≡ outstanding = omega arith in
      (
        i',
        rw (lt→ltb i.cp (nc i) more, scan, append-nil out, all)
            (ap (go_on fuel) (turn-none outstanding out i')),
      )
  input_loop-Acks (suc fuel) outstanding out _ _ enough
        (ack i i' payload ns more scan sub less acks) =
      let n : ℕ = control.length' payload in
      let complaint : List Report = if ltb outstanding n then ack_exceeds n ∷ [] else [] in
      let (i2, run) =
        input_loop-Acks fuel (outstanding - n) (out ++ complaint)
          (lib.report_ok (s.sizeof_hdr + control.sizeof_payload) i') ns
          (omega (arith, less, enough)) acks in
      let total : outstanding - n - sum ns ≡ outstanding - (n + sum ns) = omega arith in
      (
        i2,
        rw (lt→ltb i.cp (nc i) more, scan)
            (ap (go_on fuel) (turn-ack outstanding out payload i' sub)
              ∙ run
              ∙ ap₂ (λ k l. some (k, l, i2)) total
                  (append_assoc out complaint (excesses (outstanding - n) ns))),
      )

  -- Let the input be acknowledgements, any number of them, in front of nothing or of a part of a packet,
  -- and let `report_ok` take each from the input. Then `app_input` takes them all and returns. The
  -- count of unacknowledged bytes is less by their sum, and 0 if that is more, so it never goes below
  -- 0; and just those that exceed what is left of the count at their turn are reported.
  pub app_input-Acks :
      (outstanding : ℕ) (i : Input) (ns : List ℕ)
      → Acks lib s control i ns
      → (i' : Input) × (app_input lib s control outstanding i
          ≡ some (outstanding - sum ns, excesses outstanding ns, i'))
  unfolding app_input
  app_input-Acks outstanding i ns acks =
      input_loop-Acks (suc (nc i)) outstanding [] i ns (omega arith) acks
