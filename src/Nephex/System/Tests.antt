-- ===== src/Nephex/System/Tests.antt =====
-- The driver on concrete events: it connects, a packet comes, and it is acknowledged.
use cosmid.Base.{
  ℕ, ◌+◌, ◌≤◌, ◌<◌, ◌≡◌, refl, arith, Bool, true, some, List, [], ◌∷◌, subst, bit_and,
}
use cosmid.Dasio.{Input}
use cosmid.Dasio.Sample.{scanner, scanner-Finds}
use cosmid.Serio.{HasHeaderSize}
use cosmid.Serio.Sample.{plain, control, acks, acks-Acks}
use cosmid.Nephex.Apid.{Entry}
use cosmid.Nephex.Receiver.{Output, word_at}
use cosmid.Nephex.Receiver.Turns.{Unknown}
use cosmid.Nephex.System.{
  Driver, Event, connects, receives, controls, expires, ends, Happening, start, run,
}
use cosmid.Nephex.System.Runs.{sent, limit, run_flow}

plain-size : HasHeaderSize plain
plain-size type length' crc = refl

abbrev apids : List Entry
apids = record { size = 2; decimation_rate = 1; n_to_skip = 1; reported = 0 } ∷ []

abbrev packet : Input
packet = record { buf = 0xaa ∷ 0xaa ∷ 0 ∷ 0 ∷ 0 ∷ 0 ∷ 0 ∷ 0 ∷ 7 ∷ []; cp = 0 }

packet-known : (start : ℕ) → 0 ≤ start → Unknown packet.buf start → ⊥
packet-known start past (whole, above) =
    let first : start ≡ 0 = omega (arith, whole.within) in
    absurd
      (omega (arith, subst (λ n. 151 < bit_and (word_at packet.buf (n + 2)) 0x3FF) first above))

abbrev empty_out : List Output → Bool
empty_out out = true

abbrev events : List Event
events = connects ∷ receives packet empty_out ∷ controls acks ∷ expires ∷ ends ∷ []

run_flow_example :
    (d : Driver) × (out : List Happening) × (run scanner plain control events (start apids)
      ≡ some (some (d, out)))
    × (sent out ≤ d.receiver.outstanding_bytes + 250)
    × (d.receiver.outstanding_bytes < limit plain)
run_flow_example =
    run_flow scanner plain control plain-size (omega arith) scanner-Finds apids events
      (tt, ((omega arith, omega arith, packet-known), ((50 ∷ 200 ∷ [], acks-Acks), (tt, (tt, tt)))))
