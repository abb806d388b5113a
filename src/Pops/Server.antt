-- ===== src/Pops/Server.antt =====
-- BBB/srvr/POPS_srvr.h and .cc, class pops_socket: commands of one byte and a newline start and stop
-- the instrument's software and its host. Messages to the log are left out.
pub mod Commands
pub mod Loop
pub mod Orders
mod Tests
use cosmid.Base.{
  ℕ, zero, suc, ◌+◌, Bool, true, false, not, ◌||◌, Option, none, some, List, [], ◌∷◌, ◌++◌, leb,
  ◌==◌, if◌then◌else◌, get_or,
}
use cosmid.Dasio.{Dasio, Input, nc}

-- `POPS_status_t`
pub data Status : Type 0 where
  pops_init pops_idle pops_active pops_shutdown : Status

-- what the server does: it runs the script that starts the software, runs the host's shutdown,
-- sends the datagram that stops the software, and replies to its client
pub data Effect : Type 0 where
  start_pops host_shutdown shutdown_datagram : Effect
  reply : List ℕ → Effect

pub record Server : Type 0 where
  pub input : Input
  pub status : Status

-- the value of the enumeration
abbrev pub code : Status → ℕ
code pops_init = 0
code pops_idle = 1
code pops_active = 2
code pops_shutdown = 3

-- the reply of `send_status`, a digit and a newline
abbrev pub status_line : Status → List ℕ
status_line status = (code status + b'0') ∷ b'\n' ∷ []

-- "Error: Invalid command\n"
abbrev pub invalid_command : List ℕ
invalid_command =
    b'E' ∷ b'r' ∷ b'r' ∷ b'o' ∷ b'r' ∷ b':' ∷ b' ' ∷ b'I' ∷ b'n' ∷ b'v' ∷ b'a' ∷ b'l' ∷ b'i' ∷ b'd'
    ∷ b' ' ∷ b'c' ∷ b'o' ∷ b'm' ∷ b'm' ∷ b'a' ∷ b'n' ∷ b'd' ∷ b'\n' ∷ []

abbrev pub is_active : Status → Bool
is_active pops_active = true
is_active _ = false

-- the cases of the switch, but for 'D'
pub execute : ℕ → Status → Status × List Effect
execute cmd status =
    if cmd == b'V'
    then (status, [])
    else if cmd == b'B'
    then (pops_active, start_pops ∷ [])
    else if cmd == b'E'
    then (pops_shutdown, (if is_active status then shutdown_datagram else host_shutdown) ∷ [])
    else if cmd == b'F'
    then (pops_shutdown, host_shutdown ∷ [])
    else (status, reply invalid_command ∷ [])

-- one turn of the loop; `false` is the return behind 'D'
pub turn : Server → List Effect → Bool × Server × List Effect
unfolding execute
turn sv out =
    let cmd = get_or sv.input.buf sv.input.cp 0 in
    let (status, effects) = execute cmd sv.status in
    let past = record (sv.input) { cp = sv.input.cp + 2 } in
    if not (get_or sv.input.buf (sv.input.cp + 1) 0 == b'\n')
    then (true, record sv { input = record (sv.input) { cp = sv.input.cp + 1 } }, out)
    else if cmd == b'D'
    then (false, record sv { input = past }, out)
    else (true, record { input = past; status = status }, out ++ effects)

-- The library's: whether a write fails, and whether the output buffer is empty, after what was done.
module _ (lib : Dasio) (iwrite_fails obuf_empty : List Effect → Bool) where
  -- `send_status`: the Boolean asks for the connection to be closed
  pub send_status : Status → List Effect → Bool × List Effect
  send_status status out =
      let out' = out ++ (reply (status_line status) ∷ []) in
      (iwrite_fails out' || not (obuf_empty out'), out')

  -- the loop of `protocol_input` and what is behind it, on fuel
  input_loop : ℕ → Server → List Effect → Option (Bool × Server × List Effect)
  unfolding turn send_status
  input_loop zero sv out = none
  input_loop (suc fuel) sv out =
      if leb (sv.input.cp + 2) (nc sv.input)
      then (let (more, sv', out') = turn sv out in
          elim more [
            | true ↦ input_loop fuel sv' out'
            | false ↦ some (false, record sv' { input = lib.consume sv'.input.cp sv'.input }, out')
          ])
      else (let (close, out') = send_status sv.status out in
          some (close, record sv { input = lib.consume sv.input.cp sv.input }, out'))

  -- Each turn moves `cp` on.
  pub protocol_input : Server → Option (Bool × Server × List Effect)
  unfolding input_loop
  protocol_input sv = input_loop (suc (nc sv.input)) sv []
