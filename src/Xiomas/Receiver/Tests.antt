-- ===== src/Xiomas/Receiver/Tests.antt =====
-- The receiver on concrete inputs.
use cosmid.Base.{
  ℕ, zero, suc, ◌≡◌, refl, true, false, Bool, none, some, List, [], ◌∷◌, arith, length,
}
use cosmid.Dasio.{Dasio}
use cosmid.Dasio.Sample.{scanner, scanner-Finds}
use cosmid.Serio.Sample.{plain}
use cosmid.Xiomas.Packet.{
  Bytes4, Header, header_at, get_packet_length, validate_header, get_value32, calculate_lrc,
}
use cosmid.Xiomas.Circ.Inv.{IsValid}
use cosmid.Xiomas.Export.{TcpExport}
use cosmid.Xiomas.Receiver.Fields.{
  xtr_idle, xtr_mid_pkt, xtr_lost, Output, Receiver, get_txmit_size,
}
use cosmid.Xiomas.Receiver.{
  protocol_input, input_loop, pass, pass_in, pass_mid_pkt, transfer, after_loop,
}
use cosmid.Xiomas.Receiver.Stall.{IsStuck, OnlyCts, Life, stuck_for_ever}
use cosmid.Xiomas.Receiver.Packets.{Handled, protocol_input-Handled}
use cosmid.Xiomas.Receiver.Calls.{protocol_input_returns}
use cosmid.Xiomas.Receiver.Opening.{HoldsPacket}

abbrev drop_first : ℕ → List ℕ → List ℕ
drop_first zero xs = xs
drop_first (suc n) [] = []
drop_first (suc n) (x ∷ xs) = drop_first n xs

-- A library that looks at the next byte only, and drops what is consumed.
abbrev lib : Dasio
lib = record {
  not_found = λ c i. (true, record { buf = i.buf; cp = length i.buf });
  consume = λ n i. record { buf = drop_first n i.buf; cp = 0 };
  report_ok = λ n i. record { buf = drop_first n i.buf; cp = 0 };
}

abbrev zeros : Bytes4
zeros = record { b0 = 0; b1 = 0; b2 = 0; b3 = 0 }

abbrev hdr0 : Header
hdr0 = record {
  start = zeros;
  packet_id = 0;
  source = 0;
  lrc = 0;
  flags = 0;
  payload_length = zeros;
  block_count = zeros;
}

-- an image packet of two payload bytes, and a byte of the next packet
abbrev image : List ℕ
image =
    b'$' ∷ b'P' ∷ b'K' ∷ b'T' ∷ 0x81 ∷ 3 ∷ 102 ∷ 0 ∷ 2 ∷ 0 ∷ 0 ∷ 0 ∷ 0 ∷ 0 ∷ 0 ∷ 0 ∷ 9 ∷ 8 ∷ b'$'
    ∷ []

abbrev export : TcpExport
export = record {
  queue = record {
    circ = 0 ∷ 0 ∷ 0 ∷ [];
    circ_size = 3;
    circ_head = 4;
    circ_tail = 0;
    outstanding_bytes = 0;
  };
  client = none;
}

export-IsValid : IsValid export.queue
export-IsValid = omega arith

abbrev idle : Receiver
idle = record {
  id = 5;
  input = record { buf = image; cp = 0 };
  state = xtr_idle;
  bytes_remaining_in_packet = 0;
  bytes_discarding = 0;
  block_count = 0;
  transmitting_current_packet = false;
  waits_for_timeout = false;
  exp = export;
}

abbrev busy : List Output → Bool
busy out = false

abbrev exp_busy : List Output → List (List ℕ) → Bool
exp_busy out written = false

image-announced : get_packet_length (header_at image 0) ≡ 18
unfolding get_packet_length header_at get_value32
image-announced = refl

image-valid : validate_header (header_at image 0) 18 ≡ true
unfolding validate_header header_at get_packet_length get_value32 calculate_lrc
image-valid = refl

idle-HoldsPacket : HoldsPacket idle 18
idle-HoldsPacket = record {
  announced = image-announced;
  valid_header = image-valid;
  some_bytes = omega arith;
  not_oversized = omega arith;
  header_here = omega arith;
  all_here = omega arith;
}

protocol_input-Handled_example :
    (r' : Receiver) × (out : List Output) × (protocol_input lib plain hdr0 busy exp_busy idle
      ≡ some (some (r', out)))
    × Handled lib idle 18 r' out
protocol_input-Handled_example =
    protocol_input-Handled lib plain hdr0 busy exp_busy (omega arith) idle 18 export-IsValid refl
      idle-HoldsPacket

-- the receiver of the example above, with the next packet's first byte left
abbrev stuck : Receiver
stuck = record idle { input = record { buf = b'$' ∷ []; cp = 0 }; state = xtr_mid_pkt }

stuck-IsStuck : IsStuck stuck
stuck-IsStuck = record { in_packet = refl; complete = refl }

-- It is called with the rest of the input and then acknowledged.
called :
    protocol_input lib plain hdr0 busy exp_busy stuck
    ≡ some (some (record stuck { input = record { buf = b'$' ∷ []; cp = 0 } }, []))
unfolding protocol_input input_loop pass pass_in pass_mid_pkt transfer get_txmit_size after_loop
called = refl

abbrev woken : Receiver
woken = record stuck { waits_for_timeout = true }

woken-Life : Life lib plain hdr0 busy exp_busy stuck woken []
woken-Life = Life.elsewhere export true (Life.receives stuck.input Life.here called)

stuck_for_ever_example :
    IsStuck woken
    × OnlyCts hdr0 []
    × (protocol_input lib plain hdr0 busy exp_busy (record woken { input = stuck.input })
        ≡ some (some (record woken { input = lib.report_ok 0 stuck.input }, [])))
stuck_for_ever_example =
    stuck_for_ever lib plain hdr0 busy exp_busy stuck.input stuck-IsStuck woken-Life

-- noise, a start that is no packet, and the image
abbrev lost : Receiver
lost = record idle { input = record { buf = 7 ∷ b'$' ∷ image; cp = 0 }; state = xtr_lost }

protocol_input_returns_example :
    (r' : Receiver) × (out : List Output) × (protocol_input scanner plain hdr0 busy exp_busy lost
      ≡ some (some (r', out)))
    × IsValid r'.exp.queue
protocol_input_returns_example =
    protocol_input_returns scanner plain hdr0 busy exp_busy (omega arith) scanner-Finds lost
      export-IsValid
