-- ===== src/Pops/Packet/Tests.antt =====
-- A packet whose fields are digits.
use cosmid.Base.{ℕ, ◌+◌, ◌-◌, ◌≡◌, refl, arith, some, List, [], ◌∷◌, pos}
use cosmid.Dasio.{Input}
use cosmid.Dasio.Reads.{Reads, IsEnd, Reads-last}
use cosmid.Pops.Sample.{scanners, scanners-ScansText, one_digit, seven, one_digit-Reads, lib}
use cosmid.Pops.Fields.{Kind, nfloat, uint8, uint16, uint32, int32, Value, real, nat, int}
use cosmid.Pops.Packet.{Clock, Pops, Report, scan_value, protocol_input}
use cosmid.Pops.Packet.Columns.{column_kind}
use cosmid.Pops.Packet.Store.{Stores}
use cosmid.Pops.Packet.RoundTrip.{TimeText, tm_of, packet_text, protocol_input-packet_text}

-- a clock that always gives the time 5
abbrev clock : Clock ℕ
clock = record {
  mktime = λ tm. some (pos 5);
  from_time = λ t. 5;
  add = λ a b. a + b;
  sub = λ a b. a - b;
  floor = λ a. a;
}

abbrev value_of : Kind → Value ℕ
value_of nfloat = real 7
value_of uint8 = nat 7
value_of uint16 = nat 7
value_of uint32 = nat 7
value_of int32 = int (pos 7)

scan_value-Reads : (k : Kind) → Reads IsEnd (scan_value lib scanners clock k) seven (value_of k)
unfolding scan_value
scan_value-Reads nfloat = Reads-last IsEnd one_digit (λ v. real v) seven 7 one_digit-Reads
scan_value-Reads uint8 = Reads-last IsEnd one_digit (λ v. nat v) seven 7 one_digit-Reads
scan_value-Reads uint16 = Reads-last IsEnd one_digit (λ v. nat v) seven 7 one_digit-Reads
scan_value-Reads uint32 = Reads-last IsEnd one_digit (λ v. nat v) seven 7 one_digit-Reads
scan_value-Reads int32 =
    Reads-last IsEnd scanners.not_int32 (λ v. int v) seven (pos 7)
      (Reads-last IsEnd one_digit (λ v. pos v) seven 7 one_digit-Reads)

-- 2023-11-02, 03:04:05
abbrev stamp : TimeText
stamp = record {
  year = b'2' ∷ b'0' ∷ b'2' ∷ b'3' ∷ [];
  month = b'1' ∷ b'1' ∷ [];
  day = b'0' ∷ b'2' ∷ [];
  hour = b'0' ∷ b'3' ∷ [];
  minute = b'0' ∷ b'4' ∷ [];
  second = b'0' ∷ b'5' ∷ [];
}

abbrev packet : List ℕ
packet = packet_text (b'x' ∷ []) (b'f' ∷ b'g' ∷ []) stamp seven (λ n. seven)

abbrev before : Pops ℕ
before = record { time = 0; fields = λ n. nat 0; srvr = 2; stale = 9 }

protocol_input-packet_text_example :
    (pops' : Pops ℕ) × (reports : List Report) × (protocol_input lib scanners clock
        (λ n. nat 1)
        before
        (record { buf = packet; cp = 3 })
      ≡ (pops', reports, record { buf = []; cp = 0 }))
    × Stores clock before (tm_of stamp) 7 (λ n. value_of (column_kind n)) pops' reports
protocol_input-packet_text_example =
    protocol_input-packet_text lib scanners clock scanners-ScansText (b'x' ∷ []) (b'f' ∷ b'g' ∷ [])
      stamp seven 7 (λ n. seven) (λ n. value_of (column_kind n)) (λ n. nat 1) before
      (record { buf = packet; cp = 3 }) refl (omega arith) (omega arith) (omega arith)
      one_digit-Reads (λ n. scan_value-Reads (column_kind n))

-- a packet that ends behind its name
abbrev cut : Input
cut = record { buf = b'P' ∷ b'O' ∷ b'P' ∷ b'S' ∷ b',' ∷ b'!' ∷ []; cp = 0 }
