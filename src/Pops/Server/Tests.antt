-- ===== src/Pops/Server/Tests.antt =====
-- A session with the server, over a library that drops what is consumed.
use cosmid.Base.{◌≡◌, Bool, true, false, some, [], ◌∷◌, drop}
use cosmid.Dasio.{Dasio}
use cosmid.Pops.Server.{Server, pops_idle, protocol_input}
use cosmid.Pops.Server.Commands.{obey, all_effects, pending}
use cosmid.Pops.Server.Loop.{protocol_input-obey}

abbrev dropper : Dasio
dropper = record {
  not_found = λ c i. (true, i);
  consume = λ n i. record { buf = drop n i.buf; cp = 0 };
  report_ok = λ n i. record { buf = drop n i.buf; cp = 0 };
}

-- "VB\n?\nE\nD\nV\n"
abbrev session : Server
session = record {
  input = record {
    buf = b'V' ∷ b'B' ∷ b'\n' ∷ b'?' ∷ b'\n' ∷ b'E' ∷ b'\n' ∷ b'D' ∷ b'\n' ∷ b'V' ∷ b'\n' ∷ [];
    cp = 0;
  };
  status = pops_idle;
}

protocol_input-obey_example :
    (close : Bool) × (sv' : Server) × (protocol_input dropper (λ out. false) (λ out. true) session
      ≡ some (close, sv', all_effects (obey (b'B' ∷ b'?' ∷ b'E' ∷ b'D' ∷ b'V' ∷ []) pops_idle)))
    × (sv'.status ≡ (obey (pending session) pops_idle).0)
protocol_input-obey_example = protocol_input-obey dropper (λ out. false) (λ out. true) session
