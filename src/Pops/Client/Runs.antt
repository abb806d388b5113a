-- ===== src/Pops/Client/Runs.antt =====
-- POPS/POPS.cc, POPS_client from its construction on: whatever the event loop calls, in any order.
use cosmid.Base.{ℕ, Bool, false, Option, some, List, [], ◌∷◌, ◌++◌, ◌>>=◌}
use mathlib.Core.Option
use cosmid.Dasio.{Dasio, Input}
use cosmid.Dasio.Scan.{Scanners}
use cosmid.Pops.Client.{
  Client, Effect, app_connected, protocol_timeout, app_process_eof, tm_sync, pops_cmd, app_input,
}

-- the constructor; `stale` is what the telemetry structure has
unfoldable pub new_client : ℕ → Client
new_client stale = record {
  srvr = 0;
  stale = stale;
  srvr_stale = 0;
  timer = false;
  connected = false;
  negotiated = false;
}

-- What the event loop calls. The state of the socket is the library's, and a packet of the
-- instrument clears `stale` (UserPkts_UDP::protocol_input).
pub data Event : Type 0 where
  syncs connects expires loses hears : Event
  socket : Bool → Bool → Event  -- connected, negotiated
  answers : Input → Event
  commands : Input → Event

module _ {Float : Type 0} (lib : Dasio) (scanners : Scanners Float) where
  unfoldable pub step : Event → Client → Option (Client × List Effect)
  step syncs c = some (tm_sync c)
  step connects c = some (app_connected c)
  step expires c = some (protocol_timeout c)
  step loses c = some (app_process_eof c)
  step hears c = some (record c { stale = 0 }, [])
  step (socket connected negotiated) c =
      some (record c { connected = connected; negotiated = negotiated }, [])
  step (answers i) c = Option.map (λ (c', out, _). (c', out)) (app_input lib scanners c i)
  step (commands i) c = let (_, c', out, _) = pops_cmd lib c i in some (c', out)

  unfoldable pub run : List Event → Client → Option (Client × List Effect)
  unfolding step
  run [] c = some (c, [])
  run (event ∷ events) c = do
    (c', out) ← step event c
    (c'', more) ← run events c'
    some (c'', out ++ more)
