-- ===== src/Xiomas/System/Tests.antt =====
-- The gateway on concrete events, over a library whose packet header is one byte.
use cosmid.Base.{
  ℕ, zero, suc, ◌≡◌, ap, refl, true, false, Bool, none, some, List, [], ◌∷◌, arith, length, bit_and,
  inr,
}
use cosmid.Dasio.{Input}
use cosmid.Dasio.Sample.{scanner, scanner-Finds}
use cosmid.Serio.Control.{Acks, over, ack}
use cosmid.Serio.Sample.{plain, control, acks, acks-Acks}
use cosmid.Xiomas.Packet.{Bytes4, Header}
use cosmid.Xiomas.Circ.{circ_buffer_size}
use cosmid.Xiomas.Circ.Inv.{contents}
use cosmid.Xiomas.Export.{TcpExport}
use cosmid.Xiomas.Receiver.Fields.{xtr_mid_pkt, Output, Receiver}
use cosmid.Xiomas.System.{
  Gateway, Event, connects, receives, controls, expires, closes, Happening, timed_out, find, start,
  step, run,
}
use cosmid.Xiomas.System.Sound.{IsSound}
use cosmid.Xiomas.System.Runs.{run-IsSound}
use cosmid.Xiomas.System.Rounds.{clear}
use cosmid.Xiomas.System.Cycle.{ready, Answered, no_more, answers, run-asks}

zeros : ℕ → List ℕ
zeros zero = []
zeros (suc n) = 0 ∷ zeros n

length-zeros : (n : ℕ) → length (zeros n) ≡ n
unfolding zeros
length-zeros zero = refl
length-zeros (suc n) = ap suc (length-zeros n)

abbrev no_bytes : Bytes4
no_bytes = record { b0 = 0; b1 = 0; b2 = 0; b3 = 0 }

abbrev hdr0 : Header
hdr0 = record {
  start = no_bytes;
  packet_id = 0;
  source = 0;
  lrc = 0;
  flags = 0;
  payload_length = no_bytes;
  block_count = no_bytes;
}

-- noise, an image packet of two payload bytes, and a byte of the next packet
abbrev stream : Input
stream = record {
  buf =
      7 ∷ b'$' ∷ b'P' ∷ b'K' ∷ b'T' ∷ 0x81 ∷ 3 ∷ 102 ∷ 0 ∷ 2 ∷ 0 ∷ 0 ∷ 0 ∷ 0 ∷ 0 ∷ 0 ∷ 0 ∷ 9 ∷ 8
      ∷ b'$' ∷ [];
  cp = 0;
}

abbrev empty_out : List Output → Bool
empty_out out = true

abbrev busy : List Output → List (List ℕ) → Bool
busy out written = false

abbrev events : List Event
events =
    connects true
    ∷ receives 0 stream empty_out busy
    ∷ connects false
    ∷ controls acks clear
    ∷ expires 0 1
    ∷ closes 0
    ∷ []

run-IsSound_example :
    (g : Gateway) × (out : List Happening) × (run scanner plain control hdr0 1 events
        (start (zeros circ_buffer_size) none)
      ≡ some (some (g, out)))
    × IsSound plain g
run-IsSound_example =
    run-IsSound scanner plain control hdr0 1 scanner-Finds (zeros circ_buffer_size) none events
      (omega arith) (length-zeros circ_buffer_size) refl
      (tt, (tt, (tt, ((50 ∷ 200 ∷ [], acks-Acks), (tt, (tt, tt))))))

-- Two bytes wait behind 2100 that are not acknowledged, and receiver 5 for the end of it.
abbrev held : TcpExport
held = record {
  queue = record {
    circ = 0 ∷ 0 ∷ 0 ∷ 3 ∷ 4 ∷ 0 ∷ 0 ∷ 0 ∷ 0 ∷ [];
    circ_size = 9;
    circ_head = 3;
    circ_tail = 5;
    outstanding_bytes = 2100;
  };
  client = some 5;
}

abbrev done : Receiver
done = record {
  id = 5;
  input = stream;
  state = xtr_mid_pkt;
  bytes_remaining_in_packet = 0;
  bytes_discarding = 0;
  block_count = 3;
  transmitting_current_packet = true;
  waits_for_timeout = false;
  exp = held;
}

abbrev waiting : Gateway
waiting = record { exp = held; receivers = done ∷ []; accepted = 6 }

some_five : (id : ℕ) → some 5 ≡ some id → 5 ≡ id
some_five id e = cc

waiting-IsSound : IsSound plain waiting
waiting-IsSound = record {
  valid = omega arith;
  limited = omega arith;
  known = λ id e. omega (arith, some_five id e);
  settled = ((omega arith, inr (record { in_packet = refl; complete = refl })), tt);
}

-- an acknowledgement of 2100 bytes
abbrev whole : Input
whole = record { buf = 9 ∷ 2100 ∷ []; cp = 0 }

whole-Acks : Acks scanner plain control whole (2100 ∷ [])
whole-Acks =
    ack whole whole (2100 ∷ []) [] (omega arith) refl refl (omega arith)
      (over (record { buf = []; cp = 0 }) (omega arith))

whole-Answered :
    Answered scanner plain control hdr0 1 (omega arith) waiting (controls whole clear ∷ [])
whole-Answered = answers waiting whole 2100 whole-Acks (omega arith) (λ g' out first. no_more g')

find-done : find 5 (done ∷ []) ≡ some done
unfolding find
find-done = refl

run-asks_example :
    (g' g'' : Gateway) × (out : List Happening) × (count : ℕ) × (run scanner plain control hdr0 1
        (controls whole clear ∷ [])
        waiting
      ≡ some (some (g', out)))
    × (contents g'.exp.queue ≡ [])
    × (g'.exp.client ≡ none)
    × (step scanner plain control hdr0 1 (expires 5 3) g'
        ≡ some (some (g'', timed_out 5 (bit_and 3 1) (ready hdr0 count) ∷ [])))
run-asks_example =
    run-asks scanner plain control hdr0 1 (omega arith) 5 3 waiting done (controls whole clear ∷ [])
      waiting-IsSound.valid find-done refl whole-Answered (omega arith)
