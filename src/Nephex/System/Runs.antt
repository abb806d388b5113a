-- ===== src/Nephex/System/Runs.antt =====
-- Any run of the driver.
use cosmid.Base.{
  ℕ, ◌+◌, ◌-◌, ◌≤◌, ◌<◌, ◌≡◌, refl, arith, sum, Bool, ◌||◌, some, List, [], ◌∷◌, ◌++◌, ◌>>=◌,
  Option,
}
use cosmid.Dasio.{Dasio, Input, Finds, nc}
use cosmid.Serio.{Serio, HasHeaderSize}
use cosmid.Serio.Control.{Control, Acks}
use cosmid.Nephex.Apid.{Entry}
use cosmid.Nephex.Export.Input.Credits.{excesses, app_input-Acks}
use cosmid.Nephex.Receiver.{Output, Receiver}
use cosmid.Nephex.Receiver.Turns.{Unknown}
use cosmid.Nephex.Receiver.Sent.{rcvr_bufsize, sent_bytes, Sends-counted, Sends-bounded}
use cosmid.Nephex.Receiver.Sends.{protocol_input-Sends}
use cosmid.Nephex.System.{
  Driver, Event, connects, receives, controls, expires, ends, Happening, heard, answered, timed_out,
  lost, Result, start, connected, has_packet, after_receives, after_controls, step, go_on, run,
}

-- The instrument's input fits in the buffer and has no whole packet of an APID that the table does not
-- have; tm_ip_export sends acknowledgements, and nothing else.
abbrev pub Expected : Dasio → Serio → Control → Event → Type 0
Expected lib s control (receives i _) =
    (i.cp ≤ nc i) × (nc i ≤ rcvr_bufsize) × ((start : ℕ) → i.cp ≤ start → Unknown i.buf start → ⊥)
Expected lib s control (controls i) = (ns : List ℕ) × Acks lib s control i ns
Expected lib s control _ = Unit

abbrev pub AllExpected : Dasio → Serio → Control → List Event → Type 0
AllExpected lib s control [] = Unit
AllExpected lib s control (event ∷ events) =
    Expected lib s control event × AllExpected lib s control events

-- the bytes that an event acknowledges
abbrev pub credit :
    (lib : Dasio) (s : Serio) (control : Control) (event : Event) → Expected lib s control event → ℕ
credit lib s control (controls i) (ns, acks) = sum ns
credit lib s control connects expected = 0
credit lib s control (receives i obuf_empty) expected = 0
credit lib s control expires expected = 0
credit lib s control ends expected = 0

abbrev pub credits :
    (lib : Dasio) (s : Serio) (control : Control) (events : List Event)
    → AllExpected lib s control events
    → ℕ
credits lib s control [] expected = 0
credits lib s control (event ∷ events) (here, expected) =
    credit lib s control event here + credits lib s control events expected

-- the bytes that were sent
abbrev pub sent : List Happening → ℕ
sent [] = 0
sent (heard out ∷ more) = sent_bytes out + sent more
sent (answered _ ∷ more) = sent more
sent (timed_out ∷ more) = sent more
sent (lost ∷ more) = sent more

sent-append : (xs ys : List Happening) → sent (xs ++ ys) ≡ sent xs + sent ys
sent-append [] ys = omega arith
sent-append (heard out ∷ xs) ys = omega (arith, sent-append xs ys)
sent-append (answered _ ∷ xs) ys = sent-append xs ys
sent-append (timed_out ∷ xs) ys = sent-append xs ys
sent-append (lost ∷ xs) ys = sent-append xs ys

-- the bytes that may be unacknowledged: fewer than 2000, and a packet more
abbrev pub limit : Serio → ℕ
limit s = 2000 + (s.sizeof_hdr + rcvr_bufsize)

module _ (lib : Dasio) (s : Serio) (control : Control) (hdr : HasHeaderSize s)
    (small : s.sizeof_hdr < 1000) (finds : Finds lib) where
  -- the count of unacknowledged bytes, which has not reached the limit
  abbrev count : Driver → ℕ
  count d = d.receiver.outstanding_bytes

  -- What is done in a state below the limit, for which `acked` bytes were acknowledged: it goes
  -- through, stays below the limit, and counts what was sent and not acknowledged.
  abbrev Goes : Driver → ℕ → Option Result → Type 0
  Goes d acked result =
      (d' : Driver) × (out : List Happening) × (result ≡ some (some (d', out)))
      × (count d' < limit s)
      × (count d + sent out ≤ count d' + acked)

  receives-Goes :
      (d : Driver) (i : Input) (obuf_empty : List Output → Bool)
      → count d < limit s
      → i.cp ≤ nc i
      → nc i ≤ rcvr_bufsize
      → ((start : ℕ) → i.cp ≤ start → Unknown i.buf start → ⊥)
      → Goes d 0 (step lib s control (receives i obuf_empty) d)
  unfolding step after_receives
  receives-Goes d i obuf_empty below within fits known =
      let r : Receiver = record (d.receiver) { input = i } in
      let (r', out, returns, order) =
        protocol_input-Sends s lib obuf_empty r small finds within fits known in
      (
        record d { receiver = r'; timer_set = d.timer_set || has_packet out },
        heard out ∷ [],
        rw (returns, ◌>>=◌) refl,
        Sends-bounded s obuf_empty (count d) r'.outstanding_bytes out below order,
        omega (arith, Sends-counted s obuf_empty (count d) r'.outstanding_bytes out hdr order),
      )

  step-Goes :
      (event : Event) (d : Driver) (expected : Expected lib s control event)
      → count d < limit s
      → Goes d (credit lib s control event expected) (step lib s control event d)
  unfolding step connected after_controls
  step-Goes connects d expected below = (_, _, refl, below, omega arith)
  step-Goes (receives i obuf_empty) d (within, fits, known) below =
      receives-Goes d i obuf_empty below within fits known
  step-Goes (controls i) d (ns, acks) below =
      let (i', returns) = app_input-Acks lib s control (count d) i ns acks in
      (
        record d { receiver = record (d.receiver) { outstanding_bytes = count d - sum ns } },
        answered (excesses (count d) ns) ∷ [],
        rw returns refl,
        omega (arith, below),
        omega arith,
      )
  step-Goes expires d expected below = (_, _, refl, below, omega arith)
  step-Goes ends d expected below = (_, _, refl, below, omega arith)

  run-next :
      (event : Event) (events : List Event) (d d1 d2 : Driver) (out more : List Happening)
      → step lib s control event d ≡ some (some (d1, out))
      → run lib s control events d1 ≡ some (some (d2, more))
      → run lib s control (event ∷ events) d ≡ some (some (d2, out ++ more))
  unfolding run go_on
  run-next event events d d1 d2 out more first rest = rw (first, ◌>>=◌) (rw (rest, ◌>>=◌) refl)

  run-Goes :
      (events : List Event) (d : Driver) (expected : AllExpected lib s control events)
      → count d < limit s
      → Goes d (credits lib s control events expected) (run lib s control events d)
  unfolding run
  run-Goes [] d expected below = (d, [], refl, below, omega arith)
  run-Goes (event ∷ events) d (here, expected) below =
      let (d1, out, first, below1, counted) = step-Goes event d here below in
      let (d2, more, rest, below2, counted') = run-Goes events d1 expected below1 in
      (
        d2,
        out ++ more,
        run-next event events d d1 d2 out more first rest,
        below2,
        omega (arith, counted, counted', sent-append out more),
      )

  -- Let the instrument connect, send any bytes, fall silent and close the connection in any order, and
  -- let tm_ip_export send acknowledgements of any numbers of bytes at any time. Let the input of a call
  -- fit in the buffer and hold no whole packet of an APID above 151, and let the library find a byte,
  -- or go to the end of the input, and a serial header have its size, less than 1000 bytes. Then
  -- nothing aborts and each call ends. What was sent in all is at most what was acknowledged and what
  -- is counted as unacknowledged, and the latter is less than 2000 bytes and a packet with its header.
  pub run_flow :
      (apids : List Entry) (events : List Event) (expected : AllExpected lib s control events)
      → (d : Driver) × (out : List Happening) × (run lib s control events (start apids)
          ≡ some (some (d, out)))
        × (sent out ≤ d.receiver.outstanding_bytes + credits lib s control events expected)
        × (d.receiver.outstanding_bytes < limit s)
  unfolding start
  run_flow apids events expected =
      let (d, out, returns, below, counted) =
        run-Goes events (start apids) expected (omega arith) in
      (d, out, returns, omega (arith, counted), below)
