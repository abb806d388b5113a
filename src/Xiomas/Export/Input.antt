-- ===== src/Xiomas/Export/Input.antt =====
-- Xiomas/xiomas_export.cc, xiomas_tcp_export::app_input: the control packets that tm_ip_export sends.
pub mod Handles
pub mod Acks
mod Tests
use cosmid.Base.{
  ℕ, zero, suc, ◌+◌, Bool, true, false, not, Option, none, some, List, [], ◌∷◌, ◌++◌, ltb, ◌==◌,
  if◌then◌else◌, ◌>>=◌,
}
use cosmid.Dasio.{Dasio, Input, nc}
use cosmid.Serio.{Serio}
use cosmid.Serio.Control.{Control}
use cosmid.Xiomas.Export.{TcpExport, Effects, handle_ack}

pub data Report : Type 0 where
  invalid_length : ℕ → Report
  ack_exceeds : ℕ → Report
  unsupported_subtype : ℕ → Report
  unsupported_type : ℕ → Report

pub data Output : Type 0 where
  reported : Report → Output
  processed : Effects → Output  -- what process_queue did

module _ (lib : Dasio) (s : Serio) (control : Control)
    (obuf_empty : List Output → List (List ℕ) → Bool) where
  -- the case `ctrl_subtype_ACK`
  pub take_ack : TcpExport → List Output → ℕ → Option (TcpExport × List Output)
  take_ack e out n =
      let out' =
        out ++ (if ltb e.queue.outstanding_bytes n then reported (ack_exceeds n) ∷ [] else []) in
      do
        (e', effects) ← handle_ack s (obuf_empty out') e n
        some (e', out' ++ (processed effects ∷ []))

  -- the two switches, for a packet of the given type, length and payload
  pub take_packet :
      TcpExport → List Output → ℕ × ℕ × List ℕ → Input → Option (TcpExport × List Output × Input)
  unfolding take_ack
  take_packet e out (type, length', payload) i =
      if not (type == control.pkt_type_ctrl)
      then some (e, out ++ (reported (unsupported_type type) ∷ []), i)
      else if not (length' == control.sizeof_payload)
      then some (e, out ++ (reported (invalid_length length') ∷ []), record i { cp = i.cp + 1 })
      else if not (control.subtype payload == control.ctrl_subtype_ack)
      then some (
        e,
        out ++ (reported (unsupported_subtype (control.subtype payload)) ∷ []),
        lib.report_ok (s.sizeof_hdr + length') i,
      )
      else do
        (e', out') ← take_ack e out (control.length' payload)
        some (e', out', lib.report_ok (s.sizeof_hdr + length') i)

  -- a turn of the loop, from the result of `not_serio_pkt` on; `false` is that it returns
  pub turn :
      TcpExport
      → List Output
      → Option (ℕ × ℕ × List ℕ) × Input
      → Option (Bool × TcpExport × List Output × Input)
  unfolding take_packet
  turn e out (none, i) = some (false, e, out, i)
  turn e out (some packet, i) = do
    (e', out', i') ← take_packet e out packet i
    some (true, e', out', i')

  -- the loop, on fuel: `some none` is that the fuel ran out
  pub input_loop :
      ℕ → TcpExport → List Output → Input → Option (Option (TcpExport × List Output × Input))
  unfolding turn
  input_loop zero e out i = some none
  input_loop (suc fuel) e out i =
      if ltb i.cp (nc i)
      then (do
        (more, e', out', i') ← turn e out (control.not_serio_pkt i)
        elim more [ true ↦ input_loop fuel e' out' i' | false ↦ some (some (e', out', i')) ])
      else some (some (e, out, i))

  -- A packet has at least one byte.
  pub app_input : TcpExport → Input → Option (Option (TcpExport × List Output × Input))
  unfolding input_loop
  app_input e i = input_loop (suc (nc i)) e [] i
