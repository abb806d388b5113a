-- ===== src/Xiomas/System/Cycle.antt =====
-- The way from the end of a packet to the message that asks the scanner for the next: tm_ip_export
-- acknowledges what was sent, the queue drains, the receiver is told, and its timer runs.
use cosmid.Base.{
  ℕ, ◌+◌, ◌*◌, ◌≤◌, ◌<◌, ◌≡◌, ◌⊎◌, inl, inr, refl, sym, ap, ◌∙◌, arith, true, none, some, List, [],
  ◌∷◌, ◌++◌, length, bit_and, add32,
}
use cosmid.Dasio.{Dasio, Input}
use cosmid.Serio.{Serio}
use cosmid.Serio.Control.{Control, Acks}
use cosmid.Xiomas.Packet
use cosmid.Xiomas.Packet.{Header, header_bytes, fill_header}
use cosmid.Xiomas.Circ.Inv.{IsValid, contents}
use cosmid.Xiomas.Export.{Effects}
use cosmid.Xiomas.Export.Input
use cosmid.Xiomas.Export.Input.{app_input}
use cosmid.Xiomas.Export.Input.Handles
use cosmid.Xiomas.Export.Input.Handles.{Handles, none_left, handled, Handles-Sends}
use cosmid.Xiomas.Export.Input.Acks.{app_input-Handles}
use cosmid.Xiomas.Receiver.Fields.{Receiver, Output, sent, send_flag}
use cosmid.Xiomas.Receiver.Timeout.{protocol_timeout}
use cosmid.Xiomas.System.{
  Gateway, Event, controls, expires, Happening, timed_out, expire, update, after_controls, find,
  tell_all, tell_each, step, run,
}
use cosmid.Xiomas.System.Members.{find-id, find-tell_each}
use cosmid.Xiomas.System.Sound.{controls-eq}
use cosmid.Xiomas.System.Runs.{run-nil, run-next}
use cosmid.Xiomas.System.Rounds.{
  clear, Round, emptied, lowered, Handles-Round, IsAwaited, IsTold, tell_one, tell_none,
}

module _ (hdr0 : Header) where
  -- the message that the gateway is clear to receive
  abbrev pub ready : ℕ → Output
  ready count = sent (
      header_bytes
        (fill_header hdr0 Packet.Pid.gw_control Packet.Src.gateway Packet.Flag.cts 0 count).0)

module _ (lib : Dasio) (s : Serio) (control : Control) (hdr0 : Header) (fl_timeout : ℕ)
    (small : s.sizeof_hdr < 1000) where
  -- tm_ip_export acknowledges, one packet at a time, at least all that is then outstanding.
  pub data Answered : Gateway → List Event → Type 0 where
    no_more : (g : Gateway) → Answered g []
    answers :
        (g : Gateway) (i : Input) (n : ℕ) {events : List Event}
        → Acks lib s control i (n ∷ [])
        → g.exp.queue.outstanding_bytes ≤ n
        → ((g' : Gateway) (out : List Happening)
            → step lib s control hdr0 fl_timeout (controls i clear) g ≡ some (some (g', out))
            → Answered g' events)
        → Answered g (controls i clear ∷ events)

  -- a step with such an acknowledgement
  answer-Round :
      (g : Gateway) (i : Input) (n : ℕ)
      → IsValid g.exp.queue
      → Acks lib s control i (n ∷ [])
      → g.exp.queue.outstanding_bytes ≤ n
      → (g' : Gateway) × (out : List Happening) × (effects : List Effects) × (step lib s control
            hdr0 fl_timeout
            (controls i clear)
            g
          ≡ some (some (g', out)))
        × Round g.exp g'.exp effects
        × (g'.receivers ≡ tell_each effects g.receivers)
        × IsValid g'.exp.queue
  unfolding after_controls
  answer-Round g i n v acks enough =
      let (e', out', i', run, handles, _) =
        app_input-Handles lib s control clear g.exp i (n ∷ []) small v acks in
      (
        _,
        _,
        Input.Handles.effects_of out',
        controls-eq lib s control hdr0 fl_timeout g i i' clear e' out' run,
        Handles-Round s enough handles,
        refl,
        (Handles-Sends s clear v handles).valid,
      )

  IsTold-on :
      (id : ℕ) (g g' : Gateway) (effects : List Effects)
      → Round g.exp g'.exp effects
      → g'.receivers ≡ tell_each effects g.receivers
      → IsTold id g
      → IsTold id g'
  IsTold-on id g g' _ (emptied effects empty forgotten told) same t = record {
    r = tell_all (effects ∷ []) t.r;
    here = ap (λ rs. find id rs) same ∙ find-tell_each id (effects ∷ []) g.receivers t.r t.here;
    empty = empty;
    forgotten = forgotten;
    waits =
        ap (λ (r : Receiver). r.waits_for_timeout) (tell_none t.r effects (told ∙ t.forgotten))
        ∙ t.waits;
  }
  IsTold-on id g g' _ (lowered effects less kept silent) same t =
      absurd (omega (arith, less, ap length t.empty))

  -- The run goes through, and the receiver is told in the end.
  abbrev EndsTold : ℕ → List Event → Gateway → Type 0
  EndsTold id events g =
      (g' : Gateway) × (out : List Happening) × (run lib s control hdr0 fl_timeout events g
        ≡ some (some (g', out)))
      × IsTold id g'

  -- Once the receiver is told it stays so.
  run-told :
      (id : ℕ) {g : Gateway} {events : List Event}
      → Answered g events
      → IsValid g.exp.queue
      → IsTold id g
      → EndsTold id events g
  run-told id (no_more g) v t = (g, [], run-nil lib s control hdr0 fl_timeout g, t)
  run-told id (answers g i n {events = events} acks enough later) v t =
      let (g1, out, effects, first, round, same, v1) = answer-Round g i n v acks enough in
      let (g2, more, run, t2) =
        run-told id (later g1 out first) v1 (IsTold-on id g g1 effects round same t) in
      (
        g2,
        out ++ more,
        run-next lib s control hdr0 fl_timeout (controls i clear) events g g1 g2 out more first run,
        t2,
      )

  -- A round tells the receiver, or takes 2000 bytes from the queue.
  IsAwaited-on :
      (id : ℕ) (g g' : Gateway) (effects : List Effects)
      → Round g.exp g'.exp effects
      → g'.receivers ≡ tell_each effects g.receivers
      → IsAwaited id g
      → IsTold id g'
        ⊎ (IsAwaited id g'
            × (length (contents g'.exp.queue) + 2000 ≤ length (contents g.exp.queue)))
  IsAwaited-on id g g' _ (emptied effects empty forgotten told) same a = inl (record {
    r = tell_all (effects ∷ []) a.r;
    here = ap (λ rs. find id rs) same ∙ find-tell_each id (effects ∷ []) g.receivers a.r a.here;
    empty = empty;
    forgotten = forgotten;
    waits =
        tell_one a.r effects (told ∙ a.awaited ∙ ap some (sym (find-id id g.receivers a.r a.here)));
  })
  IsAwaited-on id g g' _ (lowered effects less kept silent) same a = inr (
    record {
      r = tell_all (effects ∷ []) a.r;
      here = ap (λ rs. find id rs) same ∙ find-tell_each id (effects ∷ []) g.receivers a.r a.here;
      awaited = kept ∙ a.awaited;
    },
    less,
  )

  run-awaited :
      (id : ℕ) {g : Gateway} {events : List Event}
      → Answered g events
      → IsValid g.exp.queue
      → IsAwaited id g
      → length (contents g.exp.queue) < 2000 * length events
      → EndsTold id events g
  run-awaited id (no_more g) v a enough = absurd (omega (arith, enough))
  run-awaited id (answers g i n {events = events} acks covers later) v a enough =
      let (g1, out, effects, first, round, same, v1) = answer-Round g i n v acks covers in
      let ended : EndsTold id events g1 = elim (IsAwaited-on id g g1 effects round same a) [
        | inl t ↦ run-told id (later g1 out first) v1 t
        | inr (a1, less) ↦ run-awaited id (later g1 out first) v1 a1 (omega (arith, less, enough))
      ] in
      let (g2, more, run, t2) = ended in
      (
        g2,
        out ++ more,
        run-next lib s control hdr0 fl_timeout (controls i clear) events g g1 g2 out more first run,
        t2,
      )

  -- The timer of a receiver runs out.
  expires-asks :
      (id flags : ℕ) (g : Gateway) (r : Receiver)
      → find id g.receivers ≡ some r
      → r.waits_for_timeout ≡ true
      → (g' : Gateway) × (count : ℕ) × (step lib s control hdr0 fl_timeout (expires id flags) g
          ≡ some (some (g', timed_out id (bit_and flags fl_timeout) (ready hdr0 count) ∷ [])))
  unfolding step expire protocol_timeout send_flag
  expires-asks id flags g r here waits =
      let (_, r', _) = protocol_timeout hdr0 fl_timeout flags (record r { exp = g.exp }) in
      let g' : Gateway = record g { receivers = update r' [] g.receivers } in
      let count : ℕ = add32 r.block_count 1 in
      rw (here, waits)
        (
          g',
          count,
          ap (λ n. some (some (g', timed_out n (bit_and flags fl_timeout) (ready hdr0 count) ∷ [])))
              (find-id id g.receivers r here),
        )

  -- Let a receiver be waited for, and let tm_ip_export acknowledge, in one packet after the other, at
  -- least all the bytes that are then outstanding, with its output buffer empty. After so many packets
  -- that 2000 bytes for each are more than the queue held, the queue is empty and no receiver is waited
  -- for; the timer of the receiver runs, and when it ends the scanner is sent the message that the
  -- gateway is clear to receive. The queue is taken to be well formed, the receiver to be connected,
  -- and a serial header to have less than 1000 bytes.
  pub run-asks :
      (id flags : ℕ) (g : Gateway) (r : Receiver) (events : List Event)
      → IsValid g.exp.queue
      → find id g.receivers ≡ some r
      → g.exp.client ≡ some id
      → Answered g events
      → length (contents g.exp.queue) < 2000 * length events
      → (g' g'' : Gateway) × (out : List Happening) × (count : ℕ) × (run lib s control hdr0
            fl_timeout events g
          ≡ some (some (g', out)))
        × (contents g'.exp.queue ≡ [])
        × (g'.exp.client ≡ none)
        × (step lib s control hdr0 fl_timeout (expires id flags) g'
            ≡ some (some (g'', timed_out id (bit_and flags fl_timeout) (ready hdr0 count) ∷ [])))
  run-asks id flags g r events v here awaited answered enough =
      let (g', out, run, t) =
        run-awaited id answered v (record { r = r; here = here; awaited = awaited }) enough in
      let (g'', count, asks) = expires-asks id flags g' t.r t.here t.waits in
      (g', g'', out, count, run, t.empty, t.forgotten, asks)
