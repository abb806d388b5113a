-- ===== src/Xiomas/Receiver/Kept.antt =====
-- What holds of a receiver through a call of `protocol_input`, and the parts of a pass that do not
-- touch the export client.
use cosmid.Base.{
  ℕ, ◌+◌, ◌-◌, ◌*◌, ◌<◌, ◌≡◌, ◌≢◌, refl, ap, ◌∙◌, arith, Bool, true, false, not, ◌&&◌, bit_and,
  Option, some, append-nil, List, ◌∷◌, ◌++◌, [], ◌==◌, Bool-cases, inl, inr, if◌then◌else◌, sym,
}
use cosmid.Dasio.{Dasio, Input, nc}
use cosmid.Serio.{Serio}
use cosmid.Xiomas.Packet
use cosmid.Xiomas.Packet.{Header, header_size, header_at, get_packet_length, validate_header}
use cosmid.Xiomas.Receiver.Fields.{
  State, xtr_idle, xtr_mid_pkt, xtr_lost, LogMode, log_curfile, Output, logged, Receiver,
  get_txmit_size, send_flag,
}
use cosmid.Xiomas.Receiver.{Next, again, remarks, remark_id, answer_rts}
use cosmid.Xiomas.Export.Clients.{IsTame}
use cosmid.Xiomas.Receiver.Settled.{effects_of, effects_of-append, IsQuiet, IsSettled}

abbrev pub weight : State → ℕ
weight xtr_lost = 1
weight _ = 0

-- what goes down from a pass to the next
abbrev pub measure : Receiver → ℕ
measure r = 2 * (nc r.input - r.input.cp) + weight r.state

abbrev pub Lighter : Next → Receiver → Receiver → Type 0
Lighter again r' r = measure r' < measure r
Lighter _ r' r = Unit

-- What holds through a call that starts with the export's client `c`, for the receiver that `d` stands
-- for: the export client is in order, and, given `P`, the receiver is settled.
pub record IsSane (P : Type 0) (c d : Option ℕ) (max : ℕ) (r : Receiver) (out : List Output)
    : Type 0 where
  pub tame : IsTame c d max r.exp (effects_of out)
  pub asks : d ≡ some r.id
  pub settled : P → IsSettled r

-- The input alone may change.
pub at_input-IsSane :
    {P : Type 0} {c d : Option ℕ} {max : ℕ} {r : Receiver} {out : List Output} (i : Input)
    → IsSane P c d max r out
    → IsSane P c d max (record r { input = i }) out
at_input-IsSane i sane = record {
  tame = sane.tame;
  asks = sane.asks;
  settled = λ p. elim (sane.settled p) [
    | inl quiet ↦ inl quiet
    | inr stuck ↦ inr (record { in_packet = stuck.in_packet; complete = stuck.complete })
  ];
}

pub lost_mid_pkt : xtr_lost ≢ xtr_mid_pkt
lost_mid_pkt h = cc

pub idle_mid_pkt : xtr_idle ≢ xtr_mid_pkt
idle_mid_pkt h = cc

pub effects_of-quiet :
    (out new : List Output) → effects_of new ≡ [] → effects_of (out ++ new) ≡ effects_of out
effects_of-quiet out new e =
    effects_of-append out new ∙ (ap (λ l. effects_of out ++ l) e ∙ append-nil _)

pub entry_silent :
    (none_here : Bool) (out : List Output) (bytes : List ℕ)
    → effects_of (if none_here then out else out ++ (logged bytes log_curfile ∷ []))
      ≡ effects_of out
entry_silent true out bytes = refl
entry_silent false out bytes = effects_of-quiet out _ refl

-- A settled receiver that is not within a packet is quiet.
pub IsSettled-outside : (r : Receiver) → (r.state ≢ xtr_mid_pkt) → IsSettled r → IsQuiet r
IsSettled-outside r other (inl quiet) = quiet
IsSettled-outside r other (inr stuck) = absurd (other stuck.in_packet)

pub IsQuiet-like :
    (r r1 : Receiver)
    → r1.exp ≡ r.exp
    → r1.id ≡ r.id
    → r1.waits_for_timeout ≡ r.waits_for_timeout
    → IsQuiet r
    → IsQuiet r1
IsQuiet-like r r1 exp id waits (other, off) =
    ((λ h. other (sym (ap (λ e. e.client) exp) ∙ h ∙ ap some id)), waits ∙ off)

-- A receiver that takes bytes within a packet is not at its end.
pub IsSettled-within : (r : Receiver) → 0 < get_txmit_size r → IsSettled r → IsQuiet r
unfolding get_txmit_size
IsSettled-within r pos (inl quiet) = quiet
IsSettled-within r pos (inr stuck) = absurd (ground (arith, pos, stuck.complete))

module _ (lib : Dasio) (s : Serio) (hdr0 : Header) (obuf_empty : List Output → Bool)
    (exp_obuf_empty : List Output → List (List ℕ) → Bool) where
  -- An answer to the scanner.
  pub answer_rts-same :
      (hdr : Header) (r : Receiver) (out : List Output)
      → let (r', out') = answer_rts lib s hdr0 obuf_empty exp_obuf_empty hdr r out in
        (r'.input ≡ r.input)
        × (r'.exp ≡ r.exp)
        × (r'.id ≡ r.id)
        × (r'.waits_for_timeout ≡ r.waits_for_timeout)
        × (effects_of out' ≡ effects_of out)
  unfolding answer_rts send_flag
  answer_rts-same hdr r out =
      elim (Bool-cases (not (bit_and hdr.flags Packet.Flag.rts == 0) && obuf_empty out)) [
        | inl answers ↦ rw answers (refl, refl, refl, refl, effects_of-quiet out _ refl)
        | inr silent ↦ rw silent (refl, refl, refl, refl, refl)
      ]

  pub remarks_silent :
      (hdr : Header) (r : Receiver)
      → effects_of (remarks lib s hdr0 obuf_empty exp_obuf_empty hdr r) ≡ []
  unfolding remarks
  remarks_silent hdr r = ground arith

  pub silent :
      (hdr : Header) (bytes : List ℕ) (mode : LogMode)
      → effects_of (remark_id lib s hdr0 obuf_empty exp_obuf_empty hdr ++ (logged bytes mode ∷ []))
        ≡ []
  unfolding remark_id
  silent hdr bytes mode = ground arith
