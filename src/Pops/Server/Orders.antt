-- ===== src/Pops/Server/Orders.antt =====
-- The three commands that change the server's status.
use cosmid.Base.{ℕ, ◌≡◌, refl, false, [], ◌∷◌, if◌then◌else◌}
use cosmid.Pops.Server.{
  Status, pops_active, pops_shutdown, Effect, start_pops, host_shutdown, shutdown_datagram,
  is_active, execute,
}
use cosmid.Pops.Server.Commands.{obey}

pub data Order : Type 0 where
  start stop force_stop : Order

abbrev pub letter : Order → ℕ
letter start = b'B'
letter stop = b'E'
letter force_stop = b'F'

-- the status that an order leads to
abbrev pub target : Order → Status
target start = pops_active
target stop = pops_shutdown
target force_stop = pops_shutdown

-- what it does, by the status at the time
abbrev pub action : Order → Status → Effect
action start status = start_pops
action stop status = if is_active status then shutdown_datagram else host_shutdown
action force_stop status = host_shutdown

pub obey-letter :
    (order : Order) (status : Status)
    → obey (letter order ∷ []) status ≡ (target order, action order status ∷ [], false)
unfolding execute
obey-letter start status = refl
obey-letter stop status = refl
obey-letter force_stop status = refl
