-- ===== src/Nephex/Receiver/Tests.antt =====
-- A stream of two packets, over a library that scans for a byte.
use cosmid.Base.{
  subst, bit_and, ◌+◌, ◌<◌, ◌≤◌, ◌⊎◌, none, ℕ, ◌≡◌, refl, arith, Bool, true, some, List, [], ◌∷◌,
}
use cosmid.Dasio.Sample.{scanner, scanner-Finds, scanner-FindsNext}
use cosmid.Serio.Sample.{plain}
use cosmid.Nephex.Apid.{Entry}
use cosmid.Nephex.Receiver.{Output, Receiver, word_at, protocol_input}
use cosmid.Nephex.Receiver.Logs.{logged_packets}
use cosmid.Nephex.Receiver.Turns.{Cuts, IsPartial, Unknown}
use cosmid.Nephex.Receiver.Sent.{Sends}
use cosmid.Nephex.Receiver.Sends.{protocol_input-Sends}
use cosmid.Nephex.Receiver.Calls.{protocol_input-Cuts}
use cosmid.Nephex.Receiver.Frames.{IsFramed, cut, protocol_input-IsFramed}

-- the APIDs 0 and 1, of 2 and 9 bytes, that are forwarded each time and each second time
abbrev apids : List Entry
apids =
    record { size = 2; decimation_rate = 1; n_to_skip = 1; reported = 0 }
    ∷ record { size = 9; decimation_rate = 2; n_to_skip = 2; reported = 0 }
    ∷ []

abbrev stream : List ℕ
stream =
    0xaa ∷ 0xaa ∷ 0 ∷ 0 ∷ 0 ∷ 0 ∷ 2 ∷ 0 ∷ 7 ∷ 8 ∷ 9 ∷ 0xaa ∷ 0xaa ∷ 1 ∷ 0 ∷ 0 ∷ 0 ∷ 0 ∷ 0 ∷ 6 ∷ []

abbrev fresh : Receiver
fresh = record { input = record { buf = stream; cp = 0 }; apids = apids; outstanding_bytes = 0 }

abbrev always_empty : List Output → Bool
always_empty out = true

stream-IsFramed : IsFramed stream 0 (11 ∷ 9 ∷ [])
stream-IsFramed = (
  record { sync_0 = refl; sync_1 = refl; size = refl; within = omega arith; known = omega arith },
  (
    record { sync_0 = refl; sync_1 = refl; size = refl; within = omega arith; known = omega arith },
    refl,
  ),
)

protocol_input-IsFramed_example :
    (r' : Receiver) × (out : List Output) × (protocol_input scanner plain always_empty fresh
      ≡ some (some (r', out)))
    × (logged_packets out ≡ cut stream 0 (11 ∷ 9 ∷ []))
    × (r'.input ≡ record { buf = []; cp = 0 })
protocol_input-IsFramed_example =
    protocol_input-IsFramed plain scanner always_empty (11 ∷ 9 ∷ []) fresh scanner-FindsNext
      stream-IsFramed

-- a byte of noise, the first packet of `stream`, and a header that is cut off
abbrev noisy : Receiver
noisy = record {
  input = record {
    buf = 5 ∷ 0xaa ∷ 0xaa ∷ 0 ∷ 0 ∷ 0 ∷ 0 ∷ 0 ∷ 0 ∷ 7 ∷ 0xaa ∷ 0xaa ∷ 1 ∷ [];
    cp = 0;
  };
  apids = apids;
  outstanding_bytes = 0;
}

protocol_input-Cuts_example :
    ((protocol_input scanner plain always_empty noisy ≡ none)
      × ((start : ℕ) × (0 ≤ start) × Unknown noisy.input.buf start))
    ⊎ ((r' : Receiver) × (out : List Output) × (taken : ℕ) × (protocol_input scanner plain
            always_empty noisy
          ≡ some (some (r', out)))
        × (r'.input ≡ scanner.report_ok taken (record { buf = noisy.input.buf; cp = taken }))
        × Cuts noisy.input.buf 0 taken (logged_packets out)
        × IsPartial noisy.input.buf taken)
protocol_input-Cuts_example =
    protocol_input-Cuts plain scanner always_empty scanner-Finds noisy (omega arith)

-- a packet of one byte behind its header
abbrev single : Receiver
single = record {
  input = record { buf = 0xaa ∷ 0xaa ∷ 0 ∷ 0 ∷ 0 ∷ 0 ∷ 0 ∷ 0 ∷ 7 ∷ []; cp = 0 };
  apids = apids;
  outstanding_bytes = 100;
}

single-known : (start : ℕ) → 0 ≤ start → Unknown single.input.buf start → ⊥
single-known start past (whole, above) =
    let first : start ≡ 0 = omega (arith, whole.within) in
    absurd (
      omega
        (arith, subst (λ n. 151 < bit_and (word_at single.input.buf (n + 2)) 0x3FF) first above))

protocol_input-Sends_example :
    (r' : Receiver) × (out : List Output) × (protocol_input scanner plain always_empty single
      ≡ some (some (r', out)))
    × Sends plain always_empty 100 out r'.outstanding_bytes
protocol_input-Sends_example =
    protocol_input-Sends plain scanner always_empty single (omega arith) scanner-Finds (omega arith)
      (omega arith) single-known
