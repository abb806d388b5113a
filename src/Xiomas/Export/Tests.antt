-- ===== src/Xiomas/Export/Tests.antt =====
-- The export queue on concrete inputs, over a library whose packet header is one byte.
use cosmid.Base.{
  ℕ, ◌+◌, ◌<◌, ◌≡◌, ◌⊎◌, refl, true, Bool, none, some, List, [], ◌∷◌, ◌++◌, arith, length, flatten,
  leb,
}
use cosmid.Serio.Sample.{plain}
use cosmid.Serio.{HasHeaderSize, pkt_hdr}
use cosmid.Xiomas.Circ.{circ_space, circ_length, circ_transmit}
use cosmid.Xiomas.Circ.Inv.{IsValid, contents}
use cosmid.Xiomas.Export.{TcpExport, Effects, process_queue, forward_packet}
use cosmid.Xiomas.Export.Drain.{Drains, Tells, outstanding_limit, process_queue_lem}
use cosmid.Xiomas.Export.Forward.{forward_packet_safe, forward_packet_in_order}

plain-HasHeaderSize : HasHeaderSize plain
plain-HasHeaderSize type length' crc = refl

-- An output buffer that is empty until something was written.
abbrev one_write : List (List ℕ) → Bool
one_write [] = true
one_write (_ ∷ _) = leb 1 0

abbrev waiting : TcpExport
waiting = record {
  queue = record {
    circ = 0 ∷ 0 ∷ 0 ∷ 3 ∷ 4 ∷ 0 ∷ 0 ∷ 0 ∷ 0 ∷ [];
    circ_size = 9;
    circ_head = 3;
    circ_tail = 5;
    outstanding_bytes = 0;
  };
  client = some 7;
}

waiting-IsValid : IsValid waiting.queue
waiting-IsValid = omega arith

drains :
    process_queue plain one_write waiting []
    ≡ some (
      record {
        queue = record (waiting.queue) { circ_head = 10; outstanding_bytes = 2 };
        client = none;
      },
      record { written = (3 ∷ 4 ∷ []) ∷ []; acked = some 7 },
    )
unfolding process_queue circ_length circ_transmit
drains = refl

process_queue_lem_example :
    (e' : TcpExport) × (out : Effects) × (process_queue plain one_write waiting [] ≡ some (e', out))
    × Drains plain one_write waiting e' out
process_queue_lem_example = process_queue_lem plain one_write waiting (omega arith) waiting-IsValid

forward_packet_safe_example :
    (e' : TcpExport) × (out : Effects) × (forward_packet plain one_write waiting (5 ∷ 6 ∷ [])
      ≡ some (e', out))
    × IsValid e'.queue
    × (e'.queue.outstanding_bytes ≡ 0 + length (flatten out.written))
    × ((e'.queue.outstanding_bytes ≡ 0)
        ⊎ (e'.queue.outstanding_bytes < outstanding_limit plain one_write))
    × Tells waiting e' out
forward_packet_safe_example =
    forward_packet_safe plain one_write waiting (5 ∷ 6 ∷ []) (omega arith) waiting-IsValid

forward_packet_in_order_example :
    (e' : TcpExport) × (out : Effects) × (forward_packet plain one_write waiting (5 ∷ 6 ∷ [])
      ≡ some (e', out))
    × (flatten out.written ++ contents e'.queue
        ≡ contents waiting.queue ++ (pkt_hdr plain 1 (5 ∷ 6 ∷ []) ++ (5 ∷ 6 ∷ [])))
unfolding circ_length
forward_packet_in_order_example =
    forward_packet_in_order plain one_write waiting (5 ∷ 6 ∷ []) (omega arith) plain-HasHeaderSize
      waiting-IsValid (omega arith) (unfold circ_space in omega arith)
