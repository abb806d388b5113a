-- ===== src/Nephex/Emulator/Play/Tests.antt =====
-- Two packets, of which the second has to wait.
use cosmid.Base.{
  sum, ℕ, ◌+◌, ◌≡◌, ◌⊎◌, inl, refl, arith, Bool, true, false, some, List, [], ◌∷◌, ◌++◌, length,
  flatten,
}
use cosmid.Dasio.Sample.{scanner, scanner-FindsNext}
use cosmid.Serio.Sample.{plain}
use cosmid.Nephex.Receiver
use cosmid.Nephex.Receiver.{Receiver}
use cosmid.Nephex.Receiver.Logs.{logged_packets}
use cosmid.Nephex.Receiver.Frames.{IsFramed, cut}
use cosmid.Nephex.Emulator.Play.{Output, Player, added, protocol_input}
use cosmid.Nephex.Emulator.Play.Paced.{IsTimed, Timely, played}
use cosmid.Nephex.Emulator.Play.Times.{extended}
use cosmid.Nephex.Emulator.Play.Stops.{latest, first_base, protocol_input-Stops}
use cosmid.Nephex.Emulator.Play.Relay.{written, protocol_input_relayed}

-- the times 1.000 and 3.000
abbrev recorded : List ℕ
recorded =
    0xaa ∷ 0xaa ∷ 0 ∷ 0 ∷ 0 ∷ 0 ∷ 5 ∷ 0 ∷ 1 ∷ 0 ∷ 0 ∷ 0 ∷ 0 ∷ 0 ∷ 0xaa ∷ 0xaa ∷ 1 ∷ 0 ∷ 0 ∷ 0 ∷ 5
    ∷ 0 ∷ 3 ∷ 0 ∷ 0 ∷ 0 ∷ 0 ∷ 0 ∷ []

-- the timer expires at once, but not if it was extended
abbrev at_once : List Output → Bool
at_once [] = true
at_once (added _ _ ∷ out) = false
at_once (_ ∷ out) = at_once out

abbrev always : List Output → Bool
always out = true

abbrev player : Player
player = record {
  ingest = record { client = some 4; reads = true; timer = false; last_secs = 0; last_msecs = 0 };
  input = record { buf = recorded; cp = 0 };
  packet_sn = 0;
}

recorded-IsFramed : IsFramed recorded 0 (14 ∷ 14 ∷ [])
recorded-IsFramed = (
  record { sync_0 = refl; sync_1 = refl; size = refl; within = omega arith; known = omega arith },
  (
    record { sync_0 = refl; sync_1 = refl; size = refl; within = omega arith; known = omega arith },
    refl,
  ),
)

recorded-IsTimed : IsTimed recorded 0 (14 ∷ 14 ∷ [])
recorded-IsTimed = (omega arith, omega arith, (omega arith, omega arith, tt))

protocol_input-Stops_example :
    (p' : Player) × (out : List Output) × (ms : List ℕ) × (ks : List ℕ) × (protocol_input scanner
        at_once always player
      ≡ some (some (p', out)))
    × (14 ∷ 14 ∷ [] ≡ ms ++ ks)
    × (played out ≡ cut recorded 0 ms)
    × (p'.input ≡ scanner.consume (0 + sum ms) (record { buf = recorded; cp = 0 + sum ms }))
    × ((ks ≡ []) ⊎ (at_once out ≡ false))
    × Timely at_once always out
    × (extended out + first_base player ≡ latest (first_base player) recorded 0 ms ks)
protocol_input-Stops_example =
    protocol_input-Stops scanner at_once always 4 (14 ∷ 14 ∷ []) player scanner-FindsNext
      (omega arith) (omega arith) refl (inl refl) recorded-IsFramed recorded-IsTimed

abbrev fresh : Receiver
fresh = record { input = record { buf = []; cp = 0 }; apids = []; outstanding_bytes = 0 }

protocol_input_relayed_example :
    (p' : Player) × (out : List Output) × (ms : List ℕ) × (ks : List ℕ) × (r' : Receiver)
    × (log : List Receiver.Output) × (protocol_input scanner at_once always player
        ≡ some (some (p', out)))
    × (14 ∷ 14 ∷ [] ≡ ms ++ ks)
    × ((ks ≡ []) ⊎ (at_once out ≡ false))
    × (written out ≡ cut recorded 0 ms)
    × (Receiver.protocol_input scanner plain
          (λ o. true)
          (record fresh { input = record { buf = flatten (written out); cp = 0 } })
        ≡ some (some (r', log)))
    × (logged_packets log ≡ written out)
    × (r'.input
        ≡ scanner.report_ok
            (length (flatten (written out)))
            (record { buf = flatten (written out); cp = length (flatten (written out)) }))
protocol_input_relayed_example =
    protocol_input_relayed scanner at_once always (λ out. refl) plain (λ o. true) 4 (14 ∷ 14 ∷ [])
      player fresh scanner-FindsNext (omega arith) refl (inl refl) recorded-IsFramed
      recorded-IsTimed
