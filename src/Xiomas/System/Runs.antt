-- ===== src/Xiomas/System/Runs.antt =====
-- Any run of the gateway.
use cosmid.Base.{
  ℕ, ◌<◌, ◌≡◌, refl, sym, ◌∙◌, arith, Option, none, some, List, [], ◌∷◌, ◌++◌, ◌>>=◌, length,
}
use cosmid.Dasio.{Dasio, Finds}
use cosmid.Serio.{Serio}
use cosmid.Serio.Control.{Control}
use cosmid.Xiomas.Packet.{Header}
use cosmid.Xiomas.Circ.{circ_buffer_size}
use cosmid.Xiomas.Circ.Inv.{new-IsValid, outstanding-new}
use cosmid.Xiomas.System.{Gateway, Event, Happening, start, step, go_on, run}
use cosmid.Xiomas.System.Members.{none-some}
use cosmid.Xiomas.System.Sound.{IsSound, Expected, step-Goes, Goes}

-- Each event is expected.
abbrev pub AllExpected : Dasio → Serio → Control → List Event → Type 0
AllExpected lib s control [] = Unit
AllExpected lib s control (event ∷ events) =
    Expected lib s control event × AllExpected lib s control events

module _ (lib : Dasio) (s : Serio) (control : Control) (hdr0 : Header) (fl_timeout : ℕ) where
  pub run-next :
      (event : Event) (events : List Event) (g g1 g2 : Gateway) (out more : List Happening)
      → step lib s control hdr0 fl_timeout event g ≡ some (some (g1, out))
      → run lib s control hdr0 fl_timeout events g1 ≡ some (some (g2, more))
      → run lib s control hdr0 fl_timeout (event ∷ events) g ≡ some (some (g2, out ++ more))
  unfolding run go_on
  run-next event events g g1 g2 out more first rest = rw (first, ◌>>=◌) (rw (rest, ◌>>=◌) refl)

  pub run-nil : (g : Gateway) → run lib s control hdr0 fl_timeout [] g ≡ some (some (g, []))
  unfolding run
  run-nil g = refl

  start-IsSound :
      (memory : List ℕ) (client : Option ℕ)
      → length memory ≡ circ_buffer_size
      → client ≡ none
      → IsSound s (start memory client)
  unfolding start
  start-IsSound memory client size null = record {
    valid = (new-IsValid memory size).0;
    limited = omega (arith, outstanding-new memory);
    known = λ id e. absurd (none-some id (sym null ∙ e));
    settled = tt;
  }

  pub run-Goes :
      (small : s.sizeof_hdr < 1000) (finds : Finds lib) (events : List Event) (g : Gateway)
      → AllExpected lib s control events
      → IsSound s g
      → Goes lib s control hdr0 fl_timeout small finds (run lib s control hdr0 fl_timeout events g)
  run-Goes small finds [] g expected sound = (g, [], run-nil g, sound)
  run-Goes small finds (event ∷ events) g (here, expected) sound =
      let (g1, out, first, sound1) =
        step-Goes lib s control hdr0 fl_timeout small finds event g here sound in
      let (g2, more, rest, sound2) = run-Goes small finds events g1 expected sound1 in
      (g2, out ++ more, run-next event events g g1 g2 out more first rest, sound2)

  -- Let connections come, be read with any input, run into their timeouts and be deleted in any order,
  -- and let tm_ip_export send acknowledgements of any numbers of bytes, in any pieces and at any time.
  -- Let the library find a byte, or go to the end of the input, let a serial header have less than
  -- 1000 bytes, let the queue's memory have its 270000, and let the pointer to the waiting receiver,
  -- which the constructor of the export client does not write, be null. Then nothing aborts and each call ends. The
  -- queue stays well formed and has never 2000 bytes and a piece more unacknowledged. It waits for no
  -- receiver that was not accepted, and each receiver that it waits for, or whose timer runs, has a
  -- whole packet behind it: no timeout cuts a packet.
  pub run-IsSound :
      (finds : Finds lib) (memory : List ℕ) (client : Option ℕ) (events : List Event)
      → s.sizeof_hdr < 1000
      → length memory ≡ circ_buffer_size
      → client ≡ none
      → AllExpected lib s control events
      → (g : Gateway) × (out : List Happening) × (run lib s control hdr0 fl_timeout events
            (start memory client)
          ≡ some (some (g, out)))
        × IsSound s g
  run-IsSound finds memory client events small size null expected =
      run-Goes small finds events (start memory client) expected
        (start-IsSound memory client size null)
