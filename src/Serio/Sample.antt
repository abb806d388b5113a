-- ===== src/Serio/Sample.antt =====
-- A library whose packet header is one byte, for the tests.
use cosmid.Base.{◌+◌, none, some, [], ◌∷◌, arith, refl, leb, get_or, if◌then◌else◌}
use cosmid.Dasio.Sample.{scanner}
use cosmid.Dasio.{Dasio, Input, nc}
use cosmid.Serio.Control.{Control, Acks, ack, partial}
use cosmid.Serio.{Serio}

abbrev pub plain : Serio
plain = record {
  crc16modbus_word = λ crc bytes. crc;
  crc_start = 0;
  hdr_fields = λ type length' crc. [];
  sizeof_hdr = 1;
  pkt_type_sid = 1;
  pkt_type_nph = 2;
}

-- A packet has two bytes, a type and the number of bytes that is acknowledged.
abbrev pub control : Control
control = record {
  not_serio_pkt = λ i. (
    if leb (i.cp + 2) (nc i)
        then some (get_or i.buf i.cp 0, 1, get_or i.buf (i.cp + 1) 0 ∷ [])
        else none,
    i,
  );
  pkt_type_ctrl = 9;
  sizeof_payload = 1;
  subtype = λ payload. 0;
  length' = λ payload. get_or payload 0 0;
  ctrl_subtype_ack = 0;
}

abbrev pub lib : Dasio
lib = scanner

-- acknowledgements of 50 and of 200 bytes, and the start of a third
abbrev pub acks : Input
acks = record { buf = 9 ∷ 50 ∷ 9 ∷ 200 ∷ 9 ∷ []; cp = 0 }

abbrev pub acks-Acks : Acks lib plain control acks (50 ∷ 200 ∷ [])
acks-Acks = ack acks acks (50 ∷ []) (200 ∷ []) (omega arith) refl refl (omega arith) (
    ack (record { buf = 9 ∷ 200 ∷ 9 ∷ []; cp = 0 }) (record { buf = 9 ∷ 200 ∷ 9 ∷ []; cp = 0 })
      (200 ∷ []) [] (omega arith) refl refl (omega arith)
      (partial (record { buf = 9 ∷ []; cp = 0 }) (record { buf = 9 ∷ []; cp = 0 }) (omega arith)
        refl))
