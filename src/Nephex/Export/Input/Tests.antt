-- ===== src/Nephex/Export/Input/Tests.antt =====
-- Two acknowledgements, of which the second is larger than what is left.
use cosmid.Base.{◌≡◌, some, [], ◌∷◌}
use cosmid.Dasio.{Input}
use cosmid.Serio.Sample.{plain, control, lib, acks, acks-Acks}
use cosmid.Nephex.Export.Input.{ack_exceeds, app_input}
use cosmid.Nephex.Export.Input.Credits.{app_input-Acks}

app_input-Acks_example :
    (i' : Input) × (app_input lib plain control 100 acks ≡ some (0, ack_exceeds 200 ∷ [], i'))
app_input-Acks_example = app_input-Acks lib plain control 100 acks (50 ∷ 200 ∷ []) acks-Acks
