-- ===== src/Xiomas/Export.antt =====
-- Xiomas/xiomas_export.h and .cc, class xiomas_tcp_export, above its circular buffer: queueing a
-- packet, writing the queue out under flow control, the acknowledgement of bytes, and the receiver
-- that waits for the queue to drain. A `xiomas_tcp_rcvr*` is a number; `none` is an abort.
pub mod Drain
pub mod Clients
pub mod Forward
pub mod Input
mod Tests
use cosmid.Base.{
  ℕ, zero, suc, ◌+◌, ◌-◌, Bool, true, false, ◌&&◌, Option, none, some, List, [], ◌∷◌, ◌++◌, ltb,
  ◌==◌, if◌then◌else◌, ◌>>=◌,
}
use cosmid.Serio.{Serio, pkt_hdr}
use cosmid.Xiomas.Circ.{Circ, circ_length, circ_commit, circ_transmit}

pub record TcpExport : Type 0 where
  pub queue : Circ
  pub client : Option ℕ

-- what an operation hands to the outside: the spans written to the socket, oldest first, and the
-- receiver whose `ack()` was called
pub record Effects : Type 0 where
  pub written : List (List ℕ)
  pub acked : Option ℕ

-- `MAX_SPKT_DATA_PER_SERIO_PKT`
abbrev pub max_spkt_data_per_serio_pkt : ℕ
max_spkt_data_per_serio_pkt = 956

-- `obuf_empty` is the library's: whether its output buffer is empty once the given spans, the ones
-- written since the operation began, were handed to it.
module _ (s : Serio) (obuf_empty : List (List ℕ) → Bool) where
  -- `CTS()`
  pub cts : TcpExport → List (List ℕ) → Bool
  cts e written = ltb e.queue.outstanding_bytes 2000 && obuf_empty written

  -- the branch that leaves the loop of `process_queue`
  pub finish : TcpExport → List (List ℕ) → ℕ → TcpExport × Effects
  finish e written len =
      if len == 0
      then (record e { client = none }, record { written = written; acked = e.client })
      else (e, record { written = written; acked = none })

  -- the loop of `process_queue` on fuel
  process_loop : ℕ → TcpExport → List (List ℕ) → Option (TcpExport × Effects)
  process_loop zero e written = none
  process_loop (suc fuel) e written =
      let len = circ_length e.queue in
      if cts e written && ltb 0 len
      then (do
        let limit = max_spkt_data_per_serio_pkt + s.sizeof_hdr
        (queue, spans) ← circ_transmit e.queue (if ltb limit len then limit else len)
        process_loop fuel (record e { queue = queue }) (written ++ spans))
      else some (finish e written len)

  -- Every round writes at least a byte of the queue, so its length + 1 rounds are enough.
  pub process_queue : TcpExport → List (List ℕ) → Option (TcpExport × Effects)
  unfolding process_loop finish cts
  process_queue e written = process_loop (suc (circ_length e.queue)) e written

  -- `forward_packet`: the header, then the bytes, then as much of the queue as may go out
  pub forward_packet : TcpExport → List ℕ → Option (TcpExport × Effects)
  unfolding process_queue
  forward_packet e bytes = do
    queue ← circ_commit e.queue (pkt_hdr s s.pkt_type_sid bytes)
    queue' ← circ_commit queue bytes
    process_queue (record e { queue = queue' }) []

  -- the case `ctrl_subtype_ACK` of `app_input`, for an acknowledgement of `n` bytes
  pub handle_ack : TcpExport → ℕ → Option (TcpExport × Effects)
  unfolding process_queue
  handle_ack e n =
      let outstanding =
        if ltb e.queue.outstanding_bytes n then 0 else e.queue.outstanding_bytes - n in
      process_queue (record e { queue = record (e.queue) { outstanding_bytes = outstanding } }) []

-- `request_ack`: the last receiver that asks is the one that is told
unfoldable pub request_ack : TcpExport → ℕ → TcpExport
request_ack e client = record e { client = some client }
