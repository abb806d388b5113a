-- ===== src/Pops/Server/Commands.antt =====
-- The server as an interpreter of a list of commands.
use cosmid.Base.{
  ℕ, suc, ◌+◌, ◌≤◌, ◌≡◌, refl, sym, ap, ◌∙◌, arith, Bool, true, false, List, [], ◌∷◌, ◌++◌,
  append_assoc, length, get_or, drop, drop-get_or, ◌==◌, if◌then◌else◌, Bool-cases, inl, inr, ◌||◌,
}
use cosmid.Dasio.{nc}
use cosmid.Pops.Server.{
  Status, Effect, start_pops, host_shutdown, shutdown_datagram, reply, Server, status_line, execute,
}

-- the commands in the bytes: a byte in front of each newline
abbrev pub commands : List ℕ → List ℕ
commands [] = []
commands (x ∷ []) = []
commands (x ∷ y ∷ rest) = elim (y == b'\n') [
  | true ↦ x ∷ commands rest
  | false ↦ commands (y ∷ rest)
]

-- What the commands do, up to a 'D': the status, the effects, and whether there was a 'D'.
abbrev pub obey : List ℕ → Status → Status × List Effect × Bool
obey [] status = (status, [], false)
obey (cmd ∷ cmds) status =
    if cmd == b'D'
    then (status, [], true)
    else (let (status', effects) = execute cmd status in
        let (last, more, disconnects) = obey cmds status' in (last, effects ++ more, disconnects))

-- the effects of a call, its reply included
abbrev pub all_effects : Status × List Effect × Bool → List Effect
all_effects (last, effects, disconnects) =
    if disconnects then effects else effects ++ (reply (status_line last) ∷ [])

pub commands-short : (xs : List ℕ) → length xs ≤ 1 → commands xs ≡ []
commands-short [] h = refl
commands-short (x ∷ []) h = refl
commands-short (x ∷ y ∷ rest) h = absurd (omega arith)

-- the commands that are left in a server's input
abbrev pub pending : Server → List ℕ
pending sv = commands (drop sv.input.cp sv.input.buf)

-- the next two bytes
pending-two :
    (buf : List ℕ) (cp : ℕ)
    → cp + 2 ≤ length buf
    → drop cp buf ≡ get_or buf cp 0 ∷ get_or buf (cp + 1) 0 ∷ drop (cp + 2) buf
pending-two buf cp h =
    let one : suc cp ≡ cp + 1 = omega arith in
    let two : suc (cp + 1) ≡ cp + 2 = omega arith in
    drop-get_or buf cp (omega arith)
    ∙ ap (λ l. get_or buf cp 0 ∷ l)
        (ap (λ n. drop n buf) one
          ∙ drop-get_or buf (cp + 1) (omega arith)
          ∙ ap (λ n. get_or buf (cp + 1) 0 ∷ drop n buf) two)

commands-newline :
    (x y : ℕ) (rest : List ℕ) → (y == b'\n') ≡ true → commands (x ∷ y ∷ rest) ≡ x ∷ commands rest
commands-newline x y rest e = ground (arith, e)

commands-other :
    (x y : ℕ) (rest : List ℕ) → (y == b'\n') ≡ false → commands (x ∷ y ∷ rest) ≡ commands (y ∷ rest)
commands-other x y rest e = ground (arith, e)

-- what a turn leaves to do
pub turn-skips :
    (sv : Server)
    → sv.input.cp + 2 ≤ nc sv.input
    → (get_or sv.input.buf (sv.input.cp + 1) 0 == b'\n') ≡ false
    → pending sv ≡ commands (drop (sv.input.cp + 1) sv.input.buf)
turn-skips sv h e =
    let two : suc (sv.input.cp + 1) ≡ sv.input.cp + 2 = omega arith in
    ap commands (pending-two sv.input.buf sv.input.cp h)
    ∙ commands-other _ _ (drop (sv.input.cp + 2) sv.input.buf) e
    ∙ ap commands (
        sym (
          drop-get_or sv.input.buf (sv.input.cp + 1) (omega arith)
          ∙ ap (λ n. get_or sv.input.buf (sv.input.cp + 1) 0 ∷ drop n sv.input.buf) two))

pub turn-takes :
    (sv : Server)
    → sv.input.cp + 2 ≤ nc sv.input
    → (get_or sv.input.buf (sv.input.cp + 1) 0 == b'\n') ≡ true
    → pending sv
      ≡ get_or sv.input.buf sv.input.cp 0 ∷ commands (drop (sv.input.cp + 2) sv.input.buf)
turn-takes sv h e =
    ap commands (pending-two sv.input.buf sv.input.cp h)
    ∙ commands-newline _ _ (drop (sv.input.cp + 2) sv.input.buf) e

-- the server behind the command at `cp`
abbrev pub executed : Server → Server
executed sv = record {
  input = record (sv.input) { cp = sv.input.cp + 2 };
  status = (execute (get_or sv.input.buf sv.input.cp 0) sv.status).0;
}

pub all_effects-append :
    (effects : List Effect) (r : Status × List Effect × Bool)
    → effects ++ all_effects r ≡ all_effects (r.0, effects ++ r.1, r.2)
all_effects-append effects (last, more, true) = refl
all_effects-append effects (last, more, false) = sym (append_assoc effects more _)

-- whether the instrument's software or its host was shut down
abbrev pub shuts_down : List Effect → Bool
shuts_down [] = false
shuts_down (host_shutdown ∷ effects) = true
shuts_down (shutdown_datagram ∷ effects) = true
shuts_down (start_pops ∷ effects) = shuts_down effects
shuts_down (reply bytes ∷ effects) = shuts_down effects

-- whether a command asks for that
abbrev pub asks : List ℕ → Bool
asks [] = false
asks (cmd ∷ cmds) = cmd == b'E' || cmd == b'F' || asks cmds

shuts_down-append : (a b : List Effect) → shuts_down (a ++ b) ≡ (shuts_down a || shuts_down b)
shuts_down-append [] b = refl
shuts_down-append (host_shutdown ∷ a) b = refl
shuts_down-append (shutdown_datagram ∷ a) b = refl
shuts_down-append (start_pops ∷ a) b = shuts_down-append a b
shuts_down-append (reply bytes ∷ a) b = shuts_down-append a b

shuts_down-execute :
    (cmd : ℕ) (status : Status)
    → (cmd == b'E' || cmd == b'F') ≡ false
    → shuts_down (execute cmd status).1 ≡ false
unfolding execute
shuts_down-execute cmd status e = ground (arith, e)

-- Commands with no 'E' and no 'F' among them shut down neither the software nor the host, whatever
-- the status.
pub shuts_down-obey :
    (cmds : List ℕ) (status : Status) → asks cmds ≡ false → shuts_down (obey cmds status).1 ≡ false
shuts_down-obey [] status e = refl
shuts_down-obey (cmd ∷ cmds) status e =
    let here : (cmd == b'E' || cmd == b'F') ≡ false = ground (arith, e) in
    let rest : asks cmds ≡ false = ground (arith, e) in
    let (status', effects) = execute cmd status in
    elim (Bool-cases (cmd == b'D')) [
      | inl d ↦ rw d refl
      | inr other ↦
          rw
            (
              other,
              shuts_down-append effects (obey cmds status').1,
              shuts_down-execute cmd status here,
              shuts_down-obey cmds status' rest,
            )
            refl
    ]
