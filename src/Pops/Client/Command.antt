-- ===== src/Pops/Client/Command.antt =====
-- POPS_Cmd on the commands that the server beside the instrument knows.
use cosmid.Base.{◌≡◌, refl, true, false, [], ◌∷◌}
use cosmid.Dasio.{Dasio, Input}
use cosmid.Pops.Client.{Client, wrote, forward, pops_cmd}
use cosmid.Pops.Server.Orders.{Order, start, stop, force_stop, letter}

-- the line that is read for an order
abbrev pub order_line : Order → Input
order_line order = record { buf = letter order ∷ b'\n' ∷ []; cp = 0 }

pub pops_cmd-order_line :
    (lib : Dasio) (c : Client) (order : Order)
    → c.negotiated ≡ true
    → pops_cmd lib c (order_line order) ≡ (
      false,
      record c { timer = true },
      wrote (order_line order).buf ∷ [],
      lib.report_ok 2 (order_line order),
    )
unfolding pops_cmd forward
pops_cmd-order_line lib c start h = rw h refl
pops_cmd-order_line lib c stop h = rw h refl
pops_cmd-order_line lib c force_stop h = rw h refl
