-- ===== src/Pops/Client/Tests.antt =====
-- A client that hears nothing, and one that reads a line of text and a status.
use cosmid.Base.{arith, ◌≤◌, ◌≡◌, true, false, some, List, [], ◌∷◌}
use cosmid.Dasio.{Input, nc}
use cosmid.Pops.Sample.{scanners, scanners-Advances, lib}
use cosmid.Pops.Client.{Client, Effect, wrote, srvr_is_stale, status_request, app_input}
use cosmid.Pops.Client.Ticks.{ticks, current, ticks_lem}
use cosmid.Pops.Client.Runs.{
  new_client, Event, syncs, connects, expires, loses, hears, socket, answers, commands, run,
}
use cosmid.Pops.Client.Silence.{silence_of, run-silence}
use cosmid.Pops.Client.Lines.{app_input_returns}

ticks_lem_example : ticks 300 (current 2) ≡ (
  record {
    srvr = 2;
    stale = 255;
    srvr_stale = 255;
    timer = true;
    connected = true;
    negotiated = true;
  },
  wrote status_request ∷ srvr_is_stale ∷ [],
)
ticks_lem_example = ticks_lem 2 300

-- "no\n3\n1"
abbrev lines : Input
lines = record { buf = b'n' ∷ b'o' ∷ b'\n' ∷ b'3' ∷ b'\n' ∷ b'1' ∷ []; cp = 4 }

app_input_returns_example :
    (c' : Client) × (out : List Effect) × (i' : Input) × (app_input lib scanners (current 2) lines
      ≡ some (c', out, lib.report_ok 6 i'))
    × (nc i' ≡ 6)
    × (6 ≤ i'.cp)
    × (c'.timer ≡ false)
    × (c'.srvr_stale ≡ 0)
app_input_returns_example = app_input_returns lib scanners scanners-Advances (current 2) lines

-- A command comes too early; then the client connects, hears nothing, and reads some lines.
abbrev events : List Event
events =
    commands (record { buf = b'B' ∷ []; cp = 0 })
    ∷ socket true true
    ∷ connects
    ∷ syncs
    ∷ answers lines
    ∷ expires
    ∷ loses
    ∷ hears
    ∷ []

run-silence_example :
    (c : Client) × (out : List Effect) × (run lib scanners events (new_client 255) ≡ some (c, out))
    × (silence_of c ≡ record { instrument = 0; server = 0; connected = true })
run-silence_example = run-silence lib scanners scanners-Advances 255 events (omega arith)
