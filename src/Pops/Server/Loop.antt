-- ===== src/Pops/Server/Loop.antt =====
-- The loop of `protocol_input` against the list of commands.
use cosmid.Base.{
  ℕ, zero, suc, ◌+◌, ◌<◌, ◌≡◌, refl, sym, ap, ◌∙◌, arith, Bool, true, false, Option, some, List, [],
  ◌++◌, append-nil, append_assoc, get_or, drop, length-drop, leb→gt, leb→le, leb, ◌==◌, Bool-cases,
  inl, inr,
}
use cosmid.Dasio.{Dasio, nc}
use cosmid.Pops.Server.{Effect, Server, execute, turn, send_status, input_loop, protocol_input}
use cosmid.Pops.Server.Commands.{
  obey, all_effects, pending, commands-short, turn-skips, turn-takes, all_effects-append, executed,
}

module _ (lib : Dasio) (iwrite_fails obuf_empty : List Effect → Bool) where
  -- what the loop does from a server and its effects so far on
  abbrev Obeys : ℕ → Server → List Effect → Type 0
  Obeys fuel sv out =
      (close : Bool) × (sv' : Server) × (input_loop lib iwrite_fails obuf_empty fuel sv out
        ≡ some (close, sv', out ++ all_effects (obey (pending sv) sv.status)))
      × (sv'.status ≡ (obey (pending sv) sv.status).0)

  Obeys-end :
      (fuel : ℕ) (sv : Server) (out : List Effect)
      → leb (sv.input.cp + 2) (nc sv.input) ≡ false
      → Obeys (suc fuel) sv out
  unfolding input_loop send_status
  Obeys-end fuel sv out e =
      let none_left : pending sv ≡ [] =
        commands-short (drop sv.input.cp sv.input.buf)
          (omega (arith, length-drop sv.input.cp sv.input.buf, leb→gt _ _ e)) in
      rw (none_left, e) (_, _, refl, refl)

  -- how the loop goes on behind a turn
  after_turn : ℕ → Bool × Server × List Effect → Option (Bool × Server × List Effect)
  after_turn fuel (more, sv, out) = elim more [
    | true ↦ input_loop lib iwrite_fails obuf_empty fuel sv out
    | false ↦ some (false, record sv { input = lib.consume sv.input.cp sv.input }, out)
  ]

  input_loop-turn :
      (fuel : ℕ) (sv sv' : Server) (out out' : List Effect)
      → leb (sv.input.cp + 2) (nc sv.input) ≡ true
      → turn sv out ≡ (true, sv', out')
      → input_loop lib iwrite_fails obuf_empty (suc fuel) sv out
        ≡ input_loop lib iwrite_fails obuf_empty fuel sv' out'
  unfolding input_loop after_turn
  input_loop-turn fuel sv sv' out out' e t = rw e (ap (after_turn fuel) t)

  input_loop-stop :
      (fuel : ℕ) (sv sv' : Server) (out out' : List Effect)
      → leb (sv.input.cp + 2) (nc sv.input) ≡ true
      → turn sv out ≡ (false, sv', out')
      → input_loop lib iwrite_fails obuf_empty (suc fuel) sv out
        ≡ some (false, record sv' { input = lib.consume sv'.input.cp sv'.input }, out')
  unfolding input_loop after_turn
  input_loop-stop fuel sv sv' out out' e t = rw e (ap (after_turn fuel) t)

  Obeys-skip :
      (fuel : ℕ) (sv : Server) (out : List Effect)
      → leb (sv.input.cp + 2) (nc sv.input) ≡ true
      → (get_or sv.input.buf (sv.input.cp + 1) 0 == b'\n') ≡ false
      → Obeys fuel (record sv { input = record (sv.input) { cp = sv.input.cp + 1 } }) out
      → Obeys (suc fuel) sv out
  unfolding turn
  Obeys-skip fuel sv out e other (close, sv', run, status) =
      let t : turn sv out
          ≡ (true, record sv { input = record (sv.input) { cp = sv.input.cp + 1 } }, out) =
        rw other refl in
      let left = turn-skips sv (leb→le _ _ e) other in
      (close, sv', input_loop-turn fuel sv _ out out e t ∙ rw left run, rw left status)

  Obeys-disconnect :
      (fuel : ℕ) (sv : Server) (out : List Effect)
      → leb (sv.input.cp + 2) (nc sv.input) ≡ true
      → (get_or sv.input.buf (sv.input.cp + 1) 0 == b'\n') ≡ true
      → (get_or sv.input.buf sv.input.cp 0 == b'D') ≡ true
      → Obeys (suc fuel) sv out
  unfolding turn
  Obeys-disconnect fuel sv out e newline d =
      let past : Server = record sv { input = record (sv.input) { cp = sv.input.cp + 2 } } in
      let t : turn sv out ≡ (false, past, out) = rw (newline, d) refl in
      let left = turn-takes sv (leb→le _ _ e) newline in
      let stops = input_loop-stop fuel sv past out out e t in
      (
        false,
        record past { input = lib.consume past.input.cp past.input },
        stops
            ∙ ap
                (λ l. some (false, record past { input = lib.consume past.input.cp past.input }, l))
                (sym (rw (left, d) (append-nil out))),
        rw (left, d) refl,
      )

  Obeys-command :
      (fuel : ℕ) (sv : Server) (out : List Effect)
      → leb (sv.input.cp + 2) (nc sv.input) ≡ true
      → (get_or sv.input.buf (sv.input.cp + 1) 0 == b'\n') ≡ true
      → (get_or sv.input.buf sv.input.cp 0 == b'D') ≡ false
      → Obeys fuel (executed sv) (out ++ (execute (get_or sv.input.buf sv.input.cp 0) sv.status).1)
      → Obeys (suc fuel) sv out
  unfolding turn
  Obeys-command fuel sv out e newline other (close, sv', run, status) =
      let effects : List Effect = (execute (get_or sv.input.buf sv.input.cp 0) sv.status).1 in
      let t : turn sv out ≡ (true, executed sv, out ++ effects) = rw (newline, other) refl in
      let left = turn-takes sv (leb→le _ _ e) newline in
      (
        close,
        sv',
        input_loop-turn fuel sv (executed sv) out (out ++ effects) e t
            ∙ run
            ∙ ap (λ l. some (close, sv', l))
                (append_assoc out effects
                    (all_effects (obey (pending (executed sv)) (executed sv).status))
                  ∙ ap (λ l. out ++ l)
                      (all_effects-append effects
                          (obey (pending (executed sv)) (executed sv).status)
                        ∙ rw (left, other) refl)),
        status ∙ rw (left, other) refl,
      )

  input_loop-obey :
      (fuel : ℕ) (sv : Server) (out : List Effect)
      → 0 < fuel
      → nc sv.input < sv.input.cp + fuel
      → Obeys fuel sv out
  input_loop-obey zero sv out pos h = absurd (omega arith)
  input_loop-obey (suc fuel) sv out pos h =
      let skip =
        input_loop-obey fuel (record sv { input = record (sv.input) { cp = sv.input.cp + 1 } })
          out in
      let command =
        input_loop-obey fuel (executed sv)
          (out ++ (execute (get_or sv.input.buf sv.input.cp 0) sv.status).1) in
      elim (Bool-cases (leb (sv.input.cp + 2) (nc sv.input))) [
        | inr e ↦ Obeys-end fuel sv out e
        | inl e ↦
            let two = leb→le (sv.input.cp + 2) (nc sv.input) e in
            elim (Bool-cases (get_or sv.input.buf (sv.input.cp + 1) 0 == b'\n')) [
              | inr other ↦
                  Obeys-skip fuel sv out e other (skip (omega (arith, two, h)) (omega (arith, h)))
              | inl newline ↦ elim (Bool-cases (get_or sv.input.buf sv.input.cp 0 == b'D')) [
                | inl d ↦ Obeys-disconnect fuel sv out e newline d
                | inr other ↦
                    Obeys-command fuel sv out e newline other
                      (command (omega (arith, two, h)) (omega (arith, h)))
              ]
            ]
      ]

-- Whatever the input and the status, `protocol_input` returns, and its effects, in order, and the new
-- status are those of the commands in its input, obeyed one after the other up to a 'D': the reply
-- with the new status is the last effect, and is missing exactly if there was a 'D'.
pub protocol_input-obey :
    (lib : Dasio) (iwrite_fails obuf_empty : List Effect → Bool) (sv : Server)
    → (close : Bool) × (sv' : Server) × (protocol_input lib iwrite_fails obuf_empty sv
        ≡ some (close, sv', all_effects (obey (pending sv) sv.status)))
      × (sv'.status ≡ (obey (pending sv) sv.status).0)
unfolding protocol_input
protocol_input-obey lib iwrite_fails obuf_empty sv =
    input_loop-obey lib iwrite_fails obuf_empty (suc (nc sv.input)) sv [] (omega arith)
      (omega arith)
