-- ===== src/Xiomas/Export/Input/Tests.antt =====
-- Packets of two bytes, a type and the number of bytes that is acknowledged.
use cosmid.Base.{ℕ, ◌≡◌, Bool, true, none, some, List, [], ◌∷◌, arith, refl}
use cosmid.Dasio.{Input}
use cosmid.Serio.Sample.{plain, control, lib, acks, acks-Acks}
use cosmid.Xiomas.Circ.Inv.{IsValid}
use cosmid.Xiomas.Export.{TcpExport}
use cosmid.Xiomas.Export.Input.{Output, input_loop, app_input}
use cosmid.Xiomas.Export.Input.Handles.{Handles, effects_of, Sends, sent_bytes}
use cosmid.Xiomas.Export.Input.Acks.{app_input-Sends, input_loop_stalls}

abbrev always_empty : List Output → List (List ℕ) → Bool
always_empty out written = true

-- a queue of two bytes behind 2100 that are not acknowledged
abbrev held : TcpExport
held = record {
  queue = record {
    circ = 0 ∷ 0 ∷ 0 ∷ 3 ∷ 4 ∷ 0 ∷ 0 ∷ 0 ∷ 0 ∷ [];
    circ_size = 9;
    circ_head = 3;
    circ_tail = 5;
    outstanding_bytes = 2100;
  };
  client = none;
}

held-IsValid : IsValid held.queue
held-IsValid = omega arith

app_input-Sends_example :
    (e' : TcpExport) × (out : List Output) × (i' : Input) × (app_input lib plain control
        always_empty held acks
      ≡ some (some (e', out, i')))
    × Handles plain always_empty held (50 ∷ 200 ∷ []) e' (effects_of out)
    × Sends held (50 ∷ 200 ∷ []) e' (sent_bytes (effects_of out))
    × (i' ≡ record { buf = 9 ∷ []; cp = 0 })
app_input-Sends_example =
    app_input-Sends lib plain control always_empty held acks (50 ∷ 200 ∷ []) (omega arith)
      held-IsValid acks-Acks

-- a packet of type 8
abbrev other : Input
other = record { buf = 8 ∷ 1 ∷ []; cp = 0 }

input_loop_stalls_example : input_loop lib plain control always_empty 1000 held [] other ≡ some none
input_loop_stalls_example =
    input_loop_stalls lib plain control always_empty 1000 held [] other 8 1 (1 ∷ []) (omega arith)
      refl refl
