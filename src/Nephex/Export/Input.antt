-- ===== src/Nephex/Export/Input.antt =====
-- Nephex/nephex_export.cc, nephex_tcp_export::app_input: the control packets that tm_ip_export sends.
pub mod Credits
mod Tests
use cosmid.Base.{
  ℕ, zero, suc, ◌+◌, Bool, true, false, not, Option, none, some, List, [], ◌∷◌, ◌++◌, ltb, ◌==◌,
  if◌then◌else◌, ◌>>=◌,
}
use cosmid.Dasio.{Dasio, Input, nc}
use cosmid.Serio.{Serio}
use cosmid.Serio.Control.{Control}
use cosmid.Nephex.Export.{handle_ack}

pub data Report : Type 0 where
  invalid_length : ℕ → Report
  ack_exceeds : ℕ → Report
  unsupported_subtype : ℕ → Report
  unsupported_type : ℕ → Report

module _ (lib : Dasio) (s : Serio) (control : Control) where
  -- the case `ctrl_subtype_ACK`
  pub take_ack : ℕ → List Report → ℕ → ℕ × List Report
  take_ack outstanding out n =
      (handle_ack outstanding n, out ++ (if ltb outstanding n then ack_exceeds n ∷ [] else []))

  -- the two switches, for a packet of the given type, length and payload
  pub take_packet : ℕ → List Report → ℕ × ℕ × List ℕ → Input → ℕ × List Report × Input
  unfolding take_ack
  take_packet outstanding out (type, length', payload) i =
      let (outstanding', out') = take_ack outstanding out (control.length' payload) in
      if not (type == control.pkt_type_ctrl)
      then (outstanding, out ++ (unsupported_type type ∷ []), i)
      else if not (length' == control.sizeof_payload)
      then (outstanding, out ++ (invalid_length length' ∷ []), record i { cp = i.cp + 1 })
      else if not (control.subtype payload == control.ctrl_subtype_ack)
      then (
        outstanding,
        out ++ (unsupported_subtype (control.subtype payload) ∷ []),
        lib.report_ok (s.sizeof_hdr + length') i,
      )
      else (outstanding', out', lib.report_ok (s.sizeof_hdr + length') i)

  -- a turn of the loop, from the result of `not_serio_pkt` on; `false` is that it returns
  pub turn : ℕ → List Report → Option (ℕ × ℕ × List ℕ) × Input → Bool × ℕ × List Report × Input
  unfolding take_packet
  turn outstanding out (none, i) = (false, outstanding, out, i)
  turn outstanding out (some packet, i) =
      let (outstanding', out', i') = take_packet outstanding out packet i in
      (true, outstanding', out', i')

  -- the loop, on fuel: `none` is that the fuel ran out
  pub input_loop : ℕ → ℕ → List Report → Input → Option (ℕ × List Report × Input)
  unfolding turn
  input_loop zero outstanding out i = none
  input_loop (suc fuel) outstanding out i =
      let (more, outstanding', out', i') = turn outstanding out (control.not_serio_pkt i) in
      let rest = input_loop fuel outstanding' out' i' in
      if ltb i.cp (nc i)
      then (if more then rest else some (outstanding', out', i'))
      else some (outstanding, out, i)

  -- A packet has at least one byte.
  pub app_input : ℕ → Input → Option (ℕ × List Report × Input)
  unfolding input_loop
  app_input outstanding i = input_loop (suc (nc i)) outstanding [] i
