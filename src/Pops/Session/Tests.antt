-- ===== src/Pops/Session/Tests.antt =====
-- An 'E' for a server that is active.
use cosmid.Base.{◌≡◌, refl, Bool, true, false, some, [], ◌∷◌}
use cosmid.Pops.Sample.{scanners, scanners-ScansStatus, lib}
use cosmid.Pops.Client.{Client, wrote, app_input, pops_cmd}
use cosmid.Pops.Client.Command.{order_line}
use cosmid.Pops.Server.{
  pops_active, pops_shutdown, Server, shutdown_datagram, reply, protocol_input,
}
use cosmid.Pops.Server.Orders.{stop}
use cosmid.Pops.Session.{ordered, told, order_shown}

abbrev client : Client
client = record {
  srvr = 2;
  stale = 4;
  srvr_stale = 3;
  timer = false;
  connected = true;
  negotiated = true;
}

order_shown_example :
    (pops_cmd lib client (order_line stop) ≡ (
      false,
      record client { timer = true },
      wrote (b'E' ∷ b'\n' ∷ []) ∷ [],
      record { buf = []; cp = 0 },
    ))
    × ((close : Bool) × (sv' : Server) × (protocol_input lib
            (λ out. false)
            (λ out. true)
            (ordered stop pops_active)
          ≡ some (close, sv', shutdown_datagram ∷ reply (b'3' ∷ b'\n' ∷ []) ∷ []))
        × (sv'.status ≡ pops_shutdown))
    × (app_input lib scanners (record client { timer = true }) (told pops_shutdown)
        ≡ some (
          record client { srvr = 3; timer = false; srvr_stale = 0 },
          [],
          record { buf = []; cp = 0 },
        ))
order_shown_example =
    order_shown lib scanners scanners-ScansStatus (λ out. false) (λ out. true) client stop
      pops_active refl
