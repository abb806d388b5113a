-- ===== src/Nephex/System.antt =====
-- Nephex/nephex_export.h and .cc as a whole: the connection to the instrument, the export client, and
-- what the event loop may call, in any order. `none` is an abort, `some none` a loop that does not end.
pub mod Runs
mod Tests
use cosmid.Base.{ℕ, Bool, true, false, ◌||◌, Option, none, some, List, [], ◌∷◌, ◌++◌, ◌>>=◌}
use cosmid.Dasio.{Dasio, Input}
use cosmid.Serio.{Serio}
use cosmid.Serio.Control.{Control}
use cosmid.Nephex.Apid.{Entry}
use cosmid.Nephex.Export.Input
use cosmid.Nephex.Export.Input.{app_input}
use cosmid.Nephex.Receiver.{Output, logged, Receiver, protocol_input}

pub record Driver : Type 0 where
  pub receiver : Receiver  -- with the count of the export client
  pub timer_set : Bool  -- TO.Set(5,0)
  pub fl_timeout : Bool  -- Fl_Timeout in the flags

-- What the event loop calls, with what the library has in the input buffer, and with whether the
-- output buffer to tm_ip_export is empty in the course of the call.
pub data Event : Type 0 where
  connects : Event
  receives : Input → (List Output → Bool) → Event
  controls : Input → Event  -- tm_ip_export was read
  expires : Event
  ends : Event  -- the instrument has closed the connection

pub data Happening : Type 0 where
  heard : List Output → Happening
  answered : List Input.Report → Happening
  timed_out : Happening  -- the message, before `reset`
  lost : Happening

-- the constructors: nothing is unacknowledged
pub start : List Entry → Driver
start apids = record {
  receiver = record { input = record { buf = []; cp = 0 }; apids = apids; outstanding_bytes = 0 };
  timer_set = false;
  fl_timeout = false;
}

-- `connected`
pub connected : Driver → Driver
connected d = record d { timer_set = true; fl_timeout = true }

abbrev pub Result : Type 0
Result = Option (Driver × List Happening)

-- The timer is set again for each packet.
pub has_packet : List Output → Bool
has_packet [] = false
has_packet (logged packet ∷ out) = true
has_packet (_ ∷ out) = has_packet out

pub after_receives : Driver → Option (Receiver × List Output) → Result
unfolding has_packet
after_receives d none = none
after_receives d (some (r, out)) =
    some (record d { receiver = r; timer_set = d.timer_set || has_packet out }, heard out ∷ [])

pub after_controls : Driver → Option (ℕ × List Input.Report × Input) → Result
after_controls d none = none
after_controls d (some (outstanding, out, _)) = some (
  record d { receiver = record (d.receiver) { outstanding_bytes = outstanding } },
  answered out ∷ [],
)

module _ (lib : Dasio) (s : Serio) (control : Control) where
  pub step : Event → Driver → Option Result
  unfolding connected after_receives after_controls
  step connects d = some (some (connected d, []))
  step (receives i obuf_empty) d = do
    result ← protocol_input lib s obuf_empty (record (d.receiver) { input = i })
    some (after_receives d result)
  step (controls i) d =
      some (after_controls d (app_input lib s control d.receiver.outstanding_bytes i))
  step expires d = some (some (d, timed_out ∷ []))
  step ends d = some (some (d, lost ∷ []))

  -- what is left to do behind a step
  pub go_on : (Driver → Option Result) → Result → Option Result
  go_on rest none = some none
  go_on rest (some (d, out)) = do
    result ← rest d
    some (elim result [ none ↦ none | some (d', more) ↦ some (d', out ++ more) ])

  pub run : List Event → Driver → Option Result
  unfolding step go_on
  run [] d = some (some (d, []))
  run (event ∷ events) d = do result ← step event d; go_on (run events) result
