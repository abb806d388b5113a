-- ===== src/Pops/Client/Silence.antt =====
-- What any sequence of calls makes of the two counts of silence of POPS_client.
use cosmid.Base.{
  ℕ, zero, suc, ◌+◌, ◌-◌, ◌<◌, ◌≡◌, ◌∙◌, refl, arith, Bool, true, false, ◌&&◌, Option, none, some,
  List, [], ◌∷◌, ◌++◌, ltb, leb, ◌==◌, if◌then◌else◌, min, get_or, subst, sym, ap, Bool-cases, inl,
  inr, ◌>>=◌,
}
use mathlib.Core.Option
use cosmid.Dasio.{Dasio, Input, nc}
use cosmid.Dasio.Scan.{Scanners}
use cosmid.Pops.Client.{
  Client, Effect, forward, app_connected, protocol_timeout, app_process_eof, tm_sync, count_silence,
  pops_cmd, is_digit, after_newline, after_number, end_line, skip_line, take_line, input_loop,
  answered, app_input,
}
use cosmid.Pops.Client.Lines.{Advances, app_input_returns}
use cosmid.Pops.Client.Runs.{
  new_client, Event, syncs, connects, expires, loses, hears, socket, answers, commands, step, run,
}

-- How long nothing was heard: the calls of `tm_sync` since the last packet of the instrument, and what
-- was asked of the server and waited for, since its last answer.
pub record Silence : Type 0 where
  pub instrument : ℕ
  pub server : ℕ
  pub connected : Bool

abbrev pub silence_of : Client → Silence
silence_of c = record { instrument = c.stale; server = c.srvr_stale; connected = c.connected }

-- a count that stops at 255
abbrev pub one_more : ℕ → ℕ
one_more n = min 255 (n + 1)

-- The third call of `tm_sync` in silence, and each later one over a connection, counts for the server;
-- so does a connection, which makes 255 a 0.
abbrev pub grow : Event → Silence → Silence
grow syncs q = record q {
  instrument = one_more q.instrument;
  server = if leb 2 q.instrument && q.connected then one_more q.server else q.server;
}
grow connects q = record q { server = if q.server == 255 then 0 else q.server + 1 }
grow hears q = record q { instrument = 0 }
grow (answers i) q = record q { server = 0 }
grow (socket connected negotiated) q = record q { connected = connected }
grow expires q = q
grow loses q = q
grow (commands i) q = q

abbrev pub silence : List Event → Silence → Silence
silence [] q = q
silence (event ∷ events) q = silence events (grow event q)

abbrev pub IsByte : Silence → Type 0
IsByte q = (q.instrument < 256) × (q.server < 256)

grow-IsByte : (event : Event) (q : Silence) → IsByte q → IsByte (grow event q)
grow-IsByte syncs q small = ground (arith, small)
grow-IsByte connects q small = ground (arith, small)
grow-IsByte hears q small = ground (arith, small)
grow-IsByte (answers i) q small = ground (arith, small)
grow-IsByte (socket connected negotiated) q small = small
grow-IsByte expires q small = small
grow-IsByte loses q small = small
grow-IsByte (commands i) q small = small

forward-same : (c : Client) (cmd : List ℕ) → silence_of (forward c cmd).0 ≡ silence_of c
unfolding forward
forward-same c cmd = ground arith

pops_cmd-same :
    (lib : Dasio) (c : Client) (i : Input) → silence_of (pops_cmd lib c i).1 ≡ silence_of c
unfolding pops_cmd forward
pops_cmd-same lib c i = ground arith

connected-grow :
    (c : Client)
    → IsByte (silence_of c)
    → silence_of (app_connected c).0 ≡ grow connects (silence_of c)
unfolding app_connected forward
connected-grow c small = ground (arith, small)

sync-grow :
    (c : Client) → IsByte (silence_of c) → silence_of (tm_sync c).0 ≡ grow syncs (silence_of c)
unfolding tm_sync app_connected forward count_silence
sync-grow c small = ground (arith, small)

end_line-same : (c : Client) (i : Input) → silence_of (end_line c i).0 ≡ silence_of c
unfolding end_line
end_line-same c i = ground arith

after_newline-same :
    (c : Client) (scan : Option (Unit {0}) × Input)
    → silence_of (after_newline c scan).0 ≡ silence_of c
unfolding after_newline
after_newline-same c (none, i) = refl
after_newline-same c (some _, i) = refl

after_number-same :
    (newline : Input → Option (Unit {0}) × Input) (c : Client) (scan : Option ℕ × Input)
    → silence_of (after_number newline c scan).0 ≡ silence_of c
unfolding after_number
after_number-same newline c (none, i) = refl
after_number-same newline c (some v, i) = after_newline-same (record c { srvr = v }) (newline i)

module _ {Float : Type 0} (lib : Dasio) (scanners : Scanners Float) (law : Advances scanners) where
  take_line-same :
      (c : Client) (i : Input) → silence_of (take_line lib scanners c i).0 ≡ silence_of c
  unfolding take_line
  take_line-same c i = elim (Bool-cases (is_digit (get_or i.buf i.cp 0))) [
    | inl digit ↦
        rw digit (after_number-same (scanners.not_str (b'\n' ∷ [])) c (scanners.not_uint8 i))
    | inr other ↦ rw other (end_line-same c (skip_line (nc i - i.cp) i))
  ]

  abbrev Kept : Silence → Option (Client × List Effect × Input) → Type 0
  Kept q none = Unit
  Kept q (some (c, out, i)) = silence_of c ≡ q

  -- the rest of the loop, for whether there is input left
  go_on : ℕ → Client → List Effect → Input → Bool → Option (Client × List Effect × Input)
  go_on fuel c out i true =
      let (c', effects, i') = take_line lib scanners c i in
      input_loop lib scanners fuel c' (out ++ effects) i'
  go_on fuel c out i false = some (c, out, i)

  input_loop-Kept :
      (fuel : ℕ) (c : Client) (out : List Effect) (i : Input)
      → Kept (silence_of c) (input_loop lib scanners fuel c out i)
  unfolding input_loop go_on
  input_loop-Kept zero c out i = tt
  input_loop-Kept (suc fuel) c out i = elim (Bool-cases (ltb i.cp (nc i))) [
    | inr over ↦ subst (λ b. Kept (silence_of c) (go_on fuel c out i b)) (sym over) refl
    | inl more ↦
        let line = take_line lib scanners c i in
        subst (λ b. Kept (silence_of c) (go_on fuel c out i b)) (sym more)
          (subst (λ q. Kept q (input_loop lib scanners fuel line.0 (out ++ line.1) line.2))
            (take_line-same c i) (input_loop-Kept fuel line.0 (out ++ line.1) line.2))
  ]

  answered-Kept :
      (c : Client) (result : Option (Client × List Effect × Input))
      → Kept (silence_of c) result
      → Kept
          (record (silence_of c) { server = 0 })
          (Option.map
            (λ (c', out, i'). (answered lib scanners c', out, lib.report_ok (nc i') i'))
            result)
  unfolding answered
  answered-Kept c none kept = tt
  answered-Kept c (some (c', out, i)) kept = ap {B = Silence} (λ q. record q { server = 0 }) kept

  app_input-Kept :
      (c : Client) (i : Input)
      → Kept (record (silence_of c) { server = 0 }) (app_input lib scanners c i)
  unfolding app_input
  app_input-Kept c i =
      answered-Kept c (input_loop lib scanners (suc (nc i)) c [] (record i { cp = 0 }))
        (input_loop-Kept (suc (nc i)) c [] (record i { cp = 0 }))

  -- It goes through, to a client of which this silence is counted.
  abbrev Goes : Silence → Option (Client × List Effect) → Type 0
  Goes q result =
      (c' : Client) × (out : List Effect) × (result ≡ some (c', out)) × (silence_of c' ≡ q)

  step-Goes :
      (event : Event) (c : Client)
      → IsByte (silence_of c)
      → Goes (grow event (silence_of c)) (step lib scanners event c)
  unfolding step protocol_timeout app_process_eof
  step-Goes syncs c small = (_, _, refl, sync-grow c small)
  step-Goes connects c small = (_, _, refl, connected-grow c small)
  step-Goes expires c small = (_, _, refl, refl)
  step-Goes loses c small = (_, _, refl, refl)
  step-Goes hears c small = (_, _, refl, refl)
  step-Goes (socket connected negotiated) c small = (_, _, refl, refl)
  step-Goes (answers i) c small =
      let (c', out, i', returns, _, _, _, _) = app_input_returns lib scanners law c i in
      let kept : Kept (record (silence_of c) { server = 0 })
          (some (c', out, lib.report_ok (nc i) i')) =
        subst (λ result. Kept (record (silence_of c) { server = 0 }) result) returns
          (app_input-Kept c i) in
      (c', out, ap (Option.map (λ (c', out, _). (c', out))) returns, kept)
  step-Goes (commands i) c small = (_, _, refl, pops_cmd-same lib c i)

  run-Goes :
      (events : List Event) (c : Client)
      → IsByte (silence_of c)
      → Goes (silence events (silence_of c)) (run lib scanners events c)
  unfolding run
  run-Goes [] c small = (c, [], refl, refl)
  run-Goes (event ∷ events) c small =
      let (c1, out, first, grown) = step-Goes event c small in
      let (c2, more, rest, kept) =
        run-Goes events c1 (subst IsByte (sym grown) (grow-IsByte event (silence_of c) small)) in
      (c2, out ++ more, rw (first, ◌>>=◌) (rw (rest, ◌>>=◌) refl), kept ∙ ap (silence events) grown)

  -- Let the event loop call POPS_client in any way from its construction on, with any input and any
  -- command, with scanners that go forward. Then each call returns, and the counts of silence are what
  -- the calls make them: `stale` is the number of calls of `tm_sync` since the last packet of the
  -- instrument, or since it was `stale` at the construction, and stops at 255; `srvr_stale` is 0 behind
  -- each answer of the server and then counts the calls of `tm_sync` over a connection behind which
  -- `stale` is at least 3, up to 255, and the connections, of which one makes 255 a 0. Nothing else
  -- changes them.
  pub run-silence :
      (stale : ℕ) (events : List Event)
      → stale < 256
      → (c : Client) × (out : List Effect) × (run lib scanners events (new_client stale)
          ≡ some (c, out))
        × (silence_of c
            ≡ silence events (record { instrument = stale; server = 0; connected = false }))
  unfolding new_client
  run-silence stale events small = run-Goes events (new_client stale) (small, omega arith)
