-- ===== src/Xiomas/System.antt =====
-- Xiomas/xiomas_export.cc, the TCP side as a whole: the one xiomas_tcp_export, the connections that
-- xiomas_tcp_svc accepts, each with a xiomas_tcp_rcvr that points to the export client, and what the
-- event loop may call, in any order. `none` is an abort, `some none` a loop that does not end.
pub mod Members
pub mod Sound
pub mod Runs
pub mod Rounds
pub mod Cycle
mod Tests
use cosmid.Base.{ℕ, ◌+◌, Bool, Option, none, some, List, [], ◌∷◌, ◌++◌, ◌==◌, if◌then◌else◌, ◌>>=◌}
use cosmid.Dasio.{Dasio, Input}
use cosmid.Serio.{Serio}
use cosmid.Serio.Control.{Control}
use cosmid.Xiomas.Packet.{Header}
use cosmid.Xiomas.Circ
use cosmid.Xiomas.Export.{TcpExport, Effects}
use cosmid.Xiomas.Export.Input
use cosmid.Xiomas.Export.Input.{app_input}
use cosmid.Xiomas.Export.Input.Handles
use cosmid.Xiomas.Receiver.Fields.{Output, Receiver, acknowledged}
use cosmid.Xiomas.Receiver.{protocol_input}
use cosmid.Xiomas.Receiver.Settled.{effects_of}
use cosmid.Xiomas.Receiver.Timeout.{new_receiver, protocol_timeout}

-- The receivers share `exp`: what their own field `exp` holds between two calls is not read.
pub record Gateway : Type 0 where
  pub exp : TcpExport
  pub receivers : List Receiver
  pub accepted : ℕ  -- the connections so far, which numbers them

-- What the event loop calls. A connection that is read is given with what the library has in its
-- input buffer, and with whether the output buffers are empty in the course of the call.
pub data Event : Type 0 where
  connects : Bool → Event  -- new_client
  receives : ℕ → Input → (List Output → Bool) → (List Output → List (List ℕ) → Bool) → Event
  controls : Input → (List Input.Output → List (List ℕ) → Bool) → Event  -- tm_ip_export was read
  expires : ℕ → ℕ → Event  -- the timer of a receiver with these flags
  closes : ℕ → Event  -- the library deletes a connection

pub data Happening : Type 0 where
  heard : ℕ → List Output → Happening
  answered : List Input.Output → Happening
  timed_out : ℕ → ℕ → Output → Happening  -- the flags left and the message sent, before `reset`

-- Before any connection, over the memory that `new_memory` returns; the constructor leaves the pointer
-- to the export's client what it is.
pub start : List ℕ → Option ℕ → Gateway
start memory client = record {
  exp = record { queue = Circ.new memory; client = client };
  receivers = [];
  accepted = 0;
}

-- `new_client` of xiomas_tcp_svc
pub new_client : Bool → Gateway → Gateway
unfolding new_receiver
new_client transmitting g = record g {
  receivers = g.receivers ++ (new_receiver g.accepted transmitting g.exp ∷ []);
  accepted = g.accepted + 1;
}

pub find : ℕ → List Receiver → Option Receiver
find id [] = none
find id (r ∷ rs) = if r.id == id then some r else find id rs

pub remove : ℕ → List Receiver → List Receiver
remove id [] = []
remove id (r ∷ rs) = let rest = remove id rs in if r.id == id then rest else r ∷ rest

-- the `ack()` calls of `process_queue`, as one receiver sees them
pub tell_all : List Effects → Receiver → Receiver
unfolding acknowledged
tell_all [] r = r
tell_all (effects ∷ more) r = tell_all more (acknowledged r effects.acked)

-- the receivers behind a call of `r`, with these effects of the queue
pub update : Receiver → List Effects → List Receiver → List Receiver
unfolding tell_all
update r effects [] = []
update r effects (x ∷ xs) = (if x.id == r.id then r else tell_all effects x) ∷ update r effects xs

-- the receivers behind a call of the export client
pub tell_each : List Effects → List Receiver → List Receiver
unfolding tell_all
tell_each effects [] = []
tell_each effects (x ∷ xs) = tell_all effects x ∷ tell_each effects xs

abbrev pub Result : Type 0
Result = Option (Gateway × List Happening)

pub after_receives : Gateway → ℕ → Option (Receiver × List Output) → Result
unfolding update
after_receives g id none = none
after_receives g id (some (r, out)) =
    some (
      record g { exp = r.exp; receivers = update r (effects_of out) g.receivers },
      heard id out ∷ [],
    )

pub after_controls : Gateway → Option (TcpExport × List Input.Output × Input) → Result
unfolding tell_each
after_controls g none = none
after_controls g (some (exp, out, _)) = some (
  record g { exp = exp; receivers = tell_each (Input.Handles.effects_of out) g.receivers },
  answered out ∷ [],
)

module _ (lib : Dasio) (s : Serio) (control : Control) (hdr0 : Header) (fl_timeout : ℕ) where
  pub receive :
      Gateway
      → Input
      → (List Output → Bool)
      → (List Output → List (List ℕ) → Bool)
      → Option Receiver
      → Option Result
  unfolding after_receives
  receive g i obuf_empty exp_obuf_empty none = some (some (g, []))
  receive g i obuf_empty exp_obuf_empty (some r) = do
    result ←
        protocol_input lib s hdr0 obuf_empty exp_obuf_empty (record r { exp = g.exp; input = i })
    some (after_receives g r.id result)

  -- The library calls it for a timer that runs.
  pub expire : Gateway → ℕ → Option Receiver → Result
  unfolding update protocol_timeout
  expire g flags none = some (g, [])
  expire g flags (some r) =
      if r.waits_for_timeout
      then (let (flags', r', cts) =
            protocol_timeout hdr0 fl_timeout flags (record r { exp = g.exp }) in
          some (record g { receivers = update r' [] g.receivers }, timed_out r.id flags' cts ∷ []))
      else some (g, [])

  pub step : Event → Gateway → Option Result
  unfolding receive expire after_controls find remove new_client
  step (connects transmitting) g = some (some (new_client transmitting g, []))
  step (receives id i obuf_empty exp_obuf_empty) g =
      receive g i obuf_empty exp_obuf_empty (find id g.receivers)
  step (controls i obuf_empty) g = do
    result ← app_input lib s control obuf_empty g.exp i
    some (after_controls g result)
  step (expires id flags) g = some (expire g flags (find id g.receivers))
  step (closes id) g = some (some (record g { receivers = remove id g.receivers }, []))

  -- what is left to do behind a step
  pub go_on : (Gateway → Option Result) → Result → Option Result
  go_on rest none = some none
  go_on rest (some (g, out)) = do
    result ← rest g
    some (elim result [ none ↦ none | some (g', more) ↦ some (g', out ++ more) ])

  pub run : List Event → Gateway → Option Result
  unfolding step go_on
  run [] g = some (some (g, []))
  run (event ∷ events) g = do result ← step event g; go_on (run events) result
