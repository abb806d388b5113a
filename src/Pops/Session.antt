-- ===== src/Pops/Session.antt =====
-- A command from its entry to the state shown: POPS_Cmd and POPS_client of POPS/POPS.cc, and
-- pops_socket of BBB/srvr/POPS_srvr.cc, over a connection that carries bytes.
mod Tests
use cosmid.Base.{◌≡◌, ◌≤◌, refl, ap, ◌∙◌, arith, Bool, true, false, some, List, [], ◌∷◌}
use cosmid.Dasio.{Dasio, Input}
use cosmid.Dasio.Scan.{Scanners}
use cosmid.Pops.Client.{Client, wrote, app_input, pops_cmd}
use cosmid.Pops.Client.Command.{order_line, pops_cmd-order_line}
use cosmid.Pops.Client.Status.{ScansStatus, knows, app_input-digit}
use cosmid.Pops.Server.{
  Status, pops_init, pops_idle, pops_active, pops_shutdown, Effect, Server, code, status_line,
  reply, protocol_input,
}
use cosmid.Pops.Server.Orders.{Order, start, stop, force_stop, letter, target, action, obey-letter}
use cosmid.Pops.Server.Commands.{all_effects}
use cosmid.Pops.Server.Loop.{protocol_input-obey}

-- a server that is sent the line of an order
abbrev pub ordered : Order → Status → Server
ordered order status = record { input = order_line order; status = status }

-- the driver, as it reads the reply with a status
abbrev pub told : Status → Input
told status = record { buf = status_line status; cp = 0 }

code-bound : (status : Status) → code status ≤ 3
code-bound pops_init = omega arith
code-bound pops_idle = omega arith
code-bound pops_active = omega arith
code-bound pops_shutdown = omega arith

-- Let 'B', 'E' or 'F' and a newline be typed into a driver with a connection to the server. Then the
-- driver writes just these two bytes to the server and sets its timer. The server, in whatever status
-- it is, given these two bytes does one thing, and replies with the status that the command leads to,
-- active for 'B' and shutdown for the others, which is its own from then on: it starts the software for
-- 'B', sends the datagram that stops it for an 'E' while it is active, and shuts the host down for any
-- other 'E' and for 'F'. The driver, given that reply, shows that status, has no timer set and counts
-- no silence, and neither writes nor complains.
pub order_shown :
    {Float : Type 0} (lib : Dasio) (scanners : Scanners Float) (law : ScansStatus scanners)
    (iwrite_fails obuf_empty : List Effect → Bool) (c : Client) (order : Order) (status : Status)
    → c.negotiated ≡ true
    → (pops_cmd lib c (order_line order) ≡ (
      false,
      record c { timer = true },
      wrote (letter order ∷ b'\n' ∷ []) ∷ [],
      lib.report_ok 2 (order_line order),
    ))
      × ((close : Bool) × (sv' : Server) × (protocol_input lib iwrite_fails obuf_empty
              (ordered order status)
            ≡ some (close, sv', action order status ∷ reply (status_line (target order)) ∷ []))
          × (sv'.status ≡ target order))
      × (app_input lib scanners (record c { timer = true }) (told (target order))
          ≡ some (
            knows c (code (target order)),
            [],
            lib.report_ok 2 (record (told (target order)) { cp = 2 }),
          ))
order_shown lib scanners law iwrite_fails obuf_empty c order status h =
    let (close, sv', run, after) =
      protocol_input-obey lib iwrite_fails obuf_empty (ordered order status) in
    let does = obey-letter order status in
    let bound = code-bound (target order) in
    (
      pops_cmd-order_line lib c order h,
      (
        close,
        sv',
        run ∙ ap (λ d. some (close, sv', all_effects d)) does,
        after ∙ ap (λ d. d.0) does,
      ),
      app_input-digit lib scanners law (record c { timer = true }) (code (target order))
          (omega (arith, bound)),
    )
