-- ===== src/Xiomas/System/Sound.antt =====
-- The invariant of the gateway, and that each thing that can happen keeps it.
use cosmid.Base.{
  ℕ, ◌<◌, ◌≡◌, refl, sym, subst, ◌∙◌, arith, inl, inr, Bool, Bool-cases, true, false, Option, none,
  some, List, [], ◌>>=◌,
}
use cosmid.Dasio.{Dasio, Input, Finds}
use cosmid.Serio.{Serio}
use cosmid.Serio.Control.{Control, Acks}
use cosmid.Xiomas.Packet.{Header}
use cosmid.Xiomas.Circ.Inv.{IsValid}
use cosmid.Xiomas.Export.{TcpExport}
use cosmid.Xiomas.Export.Drain.{outstanding_limit}
use cosmid.Xiomas.Export.Clients.{Among, AllAmong, IsTame}
use cosmid.Xiomas.Export.Input
use cosmid.Xiomas.Export.Input.{app_input}
use cosmid.Xiomas.Export.Input.Handles
use cosmid.Xiomas.Export.Input.Handles.{Handles-IsTame}
use cosmid.Xiomas.Export.Input.Acks.{app_input-Handles}
use cosmid.Xiomas.Receiver.Fields.{Output, Receiver, send_flag}
use cosmid.Xiomas.Receiver.{protocol_input}
use cosmid.Xiomas.Receiver.Settled.{effects_of, IsSettled}
use cosmid.Xiomas.Receiver.Kept.{IsSane, at_input-IsSane}
use cosmid.Xiomas.Receiver.Calls.{protocol_input_sane}
use cosmid.Xiomas.Receiver.Timeout.{new_receiver, protocol_timeout}
use cosmid.Xiomas.System.{
  update, new_client, Gateway, Event, connects, receives, controls, expires, closes, Happening,
  Result, find, after_receives, after_controls, receive, expire, step,
}
use cosmid.Xiomas.System.Members.{
  none-some, IsMember, Members, tell_each-Members, update-Members, remove-Members, find-IsMember,
  append-Members,
}

-- The queue is well formed and has not sent too far ahead, it waits for no receiver that there never
-- was, and each receiver that it waits for, or whose timer runs, has a whole packet behind it.
pub record IsSound (s : Serio) (g : Gateway) : Type 0 where
  pub valid : IsValid g.exp.queue
  pub limited : g.exp.queue.outstanding_bytes < outstanding_limit s (λ written. true)
  pub known : (id : ℕ) → g.exp.client ≡ some id → id < g.accepted
  pub settled : Members g.exp g.accepted g.receivers

-- tm_ip_export sends acknowledgements, and nothing else.
abbrev pub Expected : Dasio → Serio → Control → Event → Type 0
Expected lib s control (controls i _) = (ns : List ℕ) × Acks lib s control i ns
Expected lib s control _ = Unit

nat_less : (n : ℕ) → n < n → ⊥
nat_less n h = omega (arith, h)

known_among :
    {c d x : Option ℕ} {accepted : ℕ}
    → Among c d x
    → ((id : ℕ) → c ≡ some id → id < accepted)
    → ((id : ℕ) → d ≡ some id → id < accepted)
    → (id : ℕ) → x ≡ some id
    → id < accepted
known_among (inl e) c d id h = absurd (none-some id (sym e ∙ h))
known_among (inr (inl e)) c d id h = c id (sym e ∙ h)
known_among (inr (inr e)) c d id h = d id (sym e ∙ h)

some_injective : {a b : ℕ} → some a ≡ some b → a ≡ b
some_injective e = cc

-- what a call of a receiver that was accepted makes of the gateway
received-IsSound :
    (s : Serio) (g : Gateway) (r r' : Receiver) (out : List Output)
    → IsSound s g
    → r.id < g.accepted
    → IsSane Unit g.exp.client (some r.id) (outstanding_limit s (λ written. true)) r' out
    → IsSound s (record g { exp = r'.exp; receivers = update r' (effects_of out) g.receivers })
received-IsSound s g r r' out sound known sane =
    let same : r'.id ≡ r.id = some_injective (sym sane.asks) in
    record {
      valid = sane.tame.valid;
      limited = sane.tame.limited;
      known =
          known_among sane.tame.client sound.known
            (λ id e. subst (λ n. n < g.accepted) (some_injective e) known);
      settled =
          update-Members g.exp g.accepted r' (effects_of out) g.receivers
            (subst (λ d. Among g.exp.client d r'.exp.client) sane.asks sane.tame.client)
            (subst (λ d. AllAmong g.exp.client d (effects_of out)) sane.asks sane.tame.told)
            (subst (λ n. n < g.accepted) (sym same) known, sane.settled tt) sound.settled;
    }

IsSane-start :
    (s : Serio) (g : Gateway) (r : Receiver)
    → IsSound s g
    → IsSettled (record r { exp = g.exp })
    → IsSane Unit g.exp.client
        (some r.id)
        (outstanding_limit s (λ written. true))
        (record r { exp = g.exp })
        []
IsSane-start s g r sound settled = record {
  tame = record {
    valid = sound.valid;
    limited = sound.limited;
    client = inr (inl refl);
    told = tt;
  };
  asks = refl;
  settled = λ p. settled;
}

-- the timer of a receiver that has a packet behind it
timed-IsSettled :
    (r : Receiver) (count : ℕ)
    → IsSettled r
    → IsSettled (record r { block_count = count; waits_for_timeout = false })
timed-IsSettled r count (inl (other, off)) = inl (other, refl)
timed-IsSettled r count (inr stuck) =
    inr (record { in_packet = stuck.in_packet; complete = stuck.complete })

module _ (lib : Dasio) (s : Serio) (control : Control) (hdr0 : Header) (fl_timeout : ℕ) where
  receive-eq :
      (g : Gateway) (i : Input) (obuf_empty : List Output → Bool)
      (exp_obuf_empty : List Output → List (List ℕ) → Bool) (r r' : Receiver) (out : List Output)
      → protocol_input lib s hdr0 obuf_empty exp_obuf_empty (record r { exp = g.exp; input = i })
        ≡ some (some (r', out))
      → receive lib s control hdr0 fl_timeout g i obuf_empty exp_obuf_empty (some r)
        ≡ some (after_receives g r.id (some (r', out)))
  unfolding receive
  receive-eq g i obuf_empty exp_obuf_empty r r' out run = rw (run, ◌>>=◌) refl

  pub controls-eq :
      (g : Gateway) (i i' : Input) (obuf_empty : List Input.Output → List (List ℕ) → Bool)
      (e' : TcpExport) (out : List Input.Output)
      → app_input lib s control obuf_empty g.exp i ≡ some (some (e', out, i'))
      → step lib s control hdr0 fl_timeout (controls i obuf_empty) g
        ≡ some (after_controls g (some (e', out, i')))
  unfolding step
  controls-eq g i i' obuf_empty e' out run = rw (run, ◌>>=◌) refl

module _ (lib : Dasio) (s : Serio) (control : Control) (hdr0 : Header) (fl_timeout : ℕ)
    (small : s.sizeof_hdr < 1000) (finds : Finds lib) where
  -- what a step does from a sound state on
  abbrev pub Goes : Option Result → Type 0
  Goes result =
      (g' : Gateway) × (out : List Happening) × (result ≡ some (some (g', out))) × IsSound s g'

  receive-Goes :
      (g : Gateway) (i : Input) (obuf_empty : List Output → Bool)
      (exp_obuf_empty : List Output → List (List ℕ) → Bool) (found : Option Receiver)
      → IsSound s g
      → ((r : Receiver) → found ≡ some r → IsMember g.exp g.accepted r)
      → Goes (receive lib s control hdr0 fl_timeout g i obuf_empty exp_obuf_empty found)
  unfolding receive after_receives
  receive-Goes g i obuf_empty exp_obuf_empty none sound member = (g, [], refl, sound)
  receive-Goes g i obuf_empty exp_obuf_empty (some r) sound member =
      let (known, settled) = member r refl in
      let (r', out, run, sane) =
        protocol_input_sane lib s hdr0 obuf_empty exp_obuf_empty small Unit g.exp.client (some r.id)
          (outstanding_limit s (λ written. true)) (omega arith) finds
          (record r { exp = g.exp; input = i })
          (at_input-IsSane i (IsSane-start s g r sound settled)) in
      (
        _,
        _,
        receive-eq lib s control hdr0 fl_timeout g i obuf_empty exp_obuf_empty r r' out run,
        received-IsSound s g r r' out sound known sane,
      )

  controls-Goes :
      (g : Gateway) (i : Input) (obuf_empty : List Input.Output → List (List ℕ) → Bool)
      (ns : List ℕ)
      → IsSound s g
      → Acks lib s control i ns
      → Goes (step lib s control hdr0 fl_timeout (controls i obuf_empty) g)
  unfolding after_controls
  controls-Goes g i obuf_empty ns sound acks =
      let (e', out, i', run, handles, _) =
        app_input-Handles lib s control obuf_empty g.exp i ns small sound.valid acks in
      let tame : IsTame g.exp.client none (outstanding_limit s (λ written. true)) e'
          (Input.Handles.effects_of out) =
        Handles-IsTame s obuf_empty [] (omega arith)
          (record {
            valid = sound.valid;
            limited = sound.limited;
            client = inr (inl refl);
            told = tt;
          })
          handles in
      (
        _,
        _,
        controls-eq lib s control hdr0 fl_timeout g i i' obuf_empty e' out run,
        record {
          valid = tame.valid;
          limited = tame.limited;
          known = known_among tame.client sound.known (λ id e. absurd (none-some id e));
          settled =
              tell_each-Members g.exp e' g.accepted (Input.Handles.effects_of out) g.receivers
                tame.client tame.told sound.settled;
        },
      )

  expire-Goes :
      (g : Gateway) (flags : ℕ) (found : Option Receiver)
      → IsSound s g
      → ((r : Receiver) → found ≡ some r → IsMember g.exp g.accepted r)
      → Goes (some (expire lib s control hdr0 fl_timeout g flags found))
  unfolding expire protocol_timeout send_flag
  expire-Goes g flags none sound member = (g, [], refl, sound)
  expire-Goes g flags (some r) sound member = elim (Bool-cases r.waits_for_timeout) [
    | inr off ↦ rw off (g, [], refl, sound)
    | inl on ↦ rw on (
      _,
      _,
      refl,
      record {
        valid = sound.valid;
        limited = sound.limited;
        known = sound.known;
        settled =
            update-Members g.exp g.accepted _ [] g.receivers (inr (inl refl)) tt
              ((member r refl).0, timed-IsSettled (record r { exp = g.exp }) _ (member r refl).1)
              sound.settled;
      },
    )
  ]

  pub step-Goes :
      (event : Event) (g : Gateway)
      → Expected lib s control event
      → IsSound s g
      → Goes (step lib s control hdr0 fl_timeout event g)
  unfolding step new_client new_receiver
  step-Goes (connects transmitting) g expected sound = (
    _,
    _,
    refl,
    record {
      valid = sound.valid;
      limited = sound.limited;
      known = λ id e. omega (arith, sound.known id e);
      settled =
          append-Members g.exp g.accepted g.receivers _ sound.settled
            (omega arith, inl ((λ h. nat_less g.accepted (sound.known g.accepted h)), refl));
    },
  )
  step-Goes (receives id i obuf_empty exp_obuf_empty) g expected sound =
      receive-Goes g i obuf_empty exp_obuf_empty (find id g.receivers) sound
        (λ r found. find-IsMember g.exp g.accepted id g.receivers r sound.settled found)
  step-Goes (controls i obuf_empty) g (ns, acks) sound = controls-Goes g i obuf_empty ns sound acks
  step-Goes (expires id flags) g expected sound =
      expire-Goes g flags (find id g.receivers) sound
        (λ r found. find-IsMember g.exp g.accepted id g.receivers r sound.settled found)
  step-Goes (closes id) g expected sound = (
    _,
    _,
    refl,
    record {
      valid = sound.valid;
      limited = sound.limited;
      known = sound.known;
      settled = remove-Members g.exp g.accepted id g.receivers sound.settled;
    },
  )
