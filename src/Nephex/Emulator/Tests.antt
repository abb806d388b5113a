-- ===== src/Nephex/Emulator/Tests.antt =====
-- Two connections, of which the first is lost, a third, and more.
use cosmid.Base.{◌<◌, ◌≡◌, ◌≢◌, refl, true, none, some, List, [], ◌∷◌}
use cosmid.Nephex.Emulator.Play.{has_client}
use cosmid.Nephex.Emulator.Runs.{Event, connects, closes, among, step, run, start, run-plays}

abbrev three : List Event
three = connects ∷ connects ∷ connects ∷ []

abbrev later : List Event
later = closes 2 ∷ connects ∷ closes 0 ∷ []

run-plays_example :
    let e = run three (start none 10 900) in
    (e.ingest.client ≡ some 0 → among 0 e.connections ≡ true)
    × (e.ingest.reads ≡ has_client e.ingest)
    × (e.ingest.client ≡ some 0 → (step connects e).ingest.client ≡ none)
    × (0 < e.accepted → (e.ingest.client ≢ some 0) → ((run later e).ingest.client ≢ some 0))
run-plays_example = run-plays 10 900 none three later 0 refl
