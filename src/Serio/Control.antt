-- ===== src/Serio/Control.antt =====
-- The control packets that tm_ip_export answers with: what the drivers use of the library to read
-- them (dasio/serio_pkt.h), as far as it is not in `Serio`.
use cosmid.Base.{ℕ, ◌+◌, ◌-◌, ◌≤◌, ◌<◌, ◌≡◌, Option, none, some, List, [], ◌∷◌}
use cosmid.Dasio.{Dasio, Input, nc}
use cosmid.Serio.{Serio}

pub record Control : Type 0 where
  pub not_serio_pkt : Input → Option (ℕ × ℕ × List ℕ) × Input  -- a type, a length and a payload; `none`: true
  pub pkt_type_ctrl : ℕ
  pub sizeof_payload : ℕ  -- sizeof(serio_ctrl_payload)
  pub subtype : List ℕ → ℕ
  pub length' : List ℕ → ℕ
  pub ctrl_subtype_ack : ℕ

-- The input is acknowledgements of these numbers of bytes, as the library reads them, and behind the
-- last one nothing, or nothing that is a whole packet.
pub data Acks (lib : Dasio) (s : Serio) (control : Control) : Input → List ℕ → Type 0 where
  over : (i : Input) → nc i ≤ i.cp → Acks lib s control i []
  partial :
      (i i' : Input) → i.cp < nc i → control.not_serio_pkt i ≡ (none, i') → Acks lib s control i []
  ack :
      (i i' : Input) (payload : List ℕ) (ns : List ℕ)
      → i.cp < nc i
      → control.not_serio_pkt i
        ≡ (some (control.pkt_type_ctrl, control.sizeof_payload, payload), i')
      → control.subtype payload ≡ control.ctrl_subtype_ack
      → nc (lib.report_ok (s.sizeof_hdr + control.sizeof_payload) i')
          - (lib.report_ok (s.sizeof_hdr + control.sizeof_payload) i').cp
        < nc i - i.cp
      → Acks lib s control (lib.report_ok (s.sizeof_hdr + control.sizeof_payload) i') ns
      → Acks lib s control i (control.length' payload ∷ ns)

-- the input behind them
abbrev pub rest_of :
    {lib : Dasio} {s : Serio} {control : Control} {i : Input} {ns : List ℕ}
    → Acks lib s control i ns
    → Input
rest_of (over i end) = i
rest_of (partial i i' more scan) = i'
rest_of (ack i i' payload ns more scan sub less acks) = rest_of acks
