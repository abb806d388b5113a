-- ===== src/Xiomas/Export/Forward.antt =====
-- `forward_packet` and the acknowledgement of bytes, on top of `circ_commit` and `process_queue`.
use cosmid.Base.{
  ℕ, ◌+◌, ◌-◌, ◌≤◌, ◌<◌, ◌≡◌, ◌⊎◌, sym, ap, ◌∙◌, arith, Bool, some, List, [], ◌++◌, append_assoc,
  ltb, if◌then◌else◌, length, flatten, subst, ◌>>=◌,
}
use cosmid.Serio.{Serio, HasHeaderSize, pkt_hdr}
use cosmid.Serio.Checks.{length-pkt_hdr}
use cosmid.Xiomas.Circ.{Circ, circ_space, circ_commit}
use cosmid.Xiomas.Circ.Inv.{IsValid, contents}
use cosmid.Xiomas.Circ.Commit.{
  room, committed, committed-Committed, contents-committed, committed-fits,
}
use cosmid.Xiomas.Circ.Wrap.{circ_commit_safe}
use cosmid.Xiomas.Export.{TcpExport, Effects, process_queue, forward_packet, handle_ack}
use cosmid.Xiomas.Export.Drain.{process_queue_lem, outstanding_limit, Tells, Drains, Drains-Tells}

module _ (s : Serio) (obuf_empty : List (List ℕ) → Bool) where
  forward_packet-eq :
      (e : TcpExport) (bytes : List ℕ) {q q' : Circ} {r : TcpExport × Effects}
      → circ_commit e.queue (pkt_hdr s s.pkt_type_sid bytes) ≡ some q
      → circ_commit q bytes ≡ some q'
      → process_queue s obuf_empty (record e { queue = q' }) [] ≡ some r
      → forward_packet s obuf_empty e bytes ≡ some r
  unfolding forward_packet
  forward_packet-eq e bytes p q r = rw (p, ◌>>=◌) (rw (q, ◌>>=◌) r)

  -- Whatever it is given, `forward_packet` on a valid queue, with a packet header of less than 1000
  -- bytes, returns: nothing aborts and the loops end. It leaves a valid queue, and the count of
  -- unacknowledged bytes grown by exactly the bytes written, and as it was or below the limit. The
  -- waiting receiver is told and forgotten, or neither.
  pub forward_packet_safe :
      (e : TcpExport) (bytes : List ℕ)
      → s.sizeof_hdr < 1000
      → IsValid e.queue
      → (e' : TcpExport) × (out : Effects) × (forward_packet s obuf_empty e bytes ≡ some (e', out))
        × IsValid e'.queue
        × (e'.queue.outstanding_bytes ≡ e.queue.outstanding_bytes + length (flatten out.written))
        × ((e'.queue.outstanding_bytes ≡ e.queue.outstanding_bytes)
            ⊎ (e'.queue.outstanding_bytes < outstanding_limit s obuf_empty))
        × Tells e e' out
  forward_packet_safe e bytes small v =
      let (q, c, _) = circ_commit_safe (pkt_hdr s s.pkt_type_sid bytes) v in
      let (q', c', _) = circ_commit_safe bytes c.valid in
      let (e', out, run, d) =
        process_queue_lem s obuf_empty (record e { queue = q' }) small c'.valid in
      let same : q'.outstanding_bytes ≡ e.queue.outstanding_bytes =
        c'.same_outstanding ∙ c.same_outstanding in
      (
        e',
        out,
        forward_packet-eq e bytes c.returns c'.returns run,
        d.drained.valid,
        omega (arith, d.drained.counted, same),
        subst
            (λ o.
              (e'.queue.outstanding_bytes ≡ o)
              ⊎ (e'.queue.outstanding_bytes < outstanding_limit s obuf_empty))
            same d.drained.limited,
        Drains-Tells s obuf_empty (record e { queue = q' }) e' out d,
      )

  -- With room for the header and the bytes in one piece at the tail of a valid queue, the spans that
  -- `forward_packet` writes, followed by what it leaves in the queue, are what the queue held,
  -- followed by the header and the bytes: nothing is lost, doubled or reordered.
  pub forward_packet_in_order :
      (e : TcpExport) (bytes : List ℕ)
      → s.sizeof_hdr < 1000
      → HasHeaderSize s
      → IsValid e.queue
      → s.sizeof_hdr + length bytes ≤ room e.queue
      → s.sizeof_hdr + length bytes ≤ circ_space e.queue
      → (e' : TcpExport) × (out : Effects) × (forward_packet s obuf_empty e bytes ≡ some (e', out))
        × (flatten out.written ++ contents e'.queue
            ≡ contents e.queue ++ (pkt_hdr s s.pkt_type_sid bytes ++ bytes))
  forward_packet_in_order e bytes small sized v h fits =
      let hdr = pkt_hdr s s.pkt_type_sid bytes in
      let len : length hdr ≡ s.sizeof_hdr = length-pkt_hdr s s.pkt_type_sid bytes sized in
      let h' : length hdr + length bytes ≤ room e.queue = rw len h in
      let fits' : length hdr + length bytes ≤ circ_space e.queue = rw len fits in
      let c = committed-Committed hdr v (omega arith) (omega arith) in
      let q = committed e.queue hdr in
      let (room', space') = committed-fits hdr bytes v h' fits' in
      let c' = committed-Committed bytes c.valid room' space' in
      let (e', out, run, d) =
        process_queue_lem s obuf_empty (record e { queue = committed q bytes }) small c'.valid in
      (
        e',
        out,
        forward_packet-eq e bytes c.returns c'.returns run,
        sym d.drained.in_order
            ∙ contents-committed bytes c.valid room' space'
            ∙ ap (λ l. l ++ bytes) (contents-committed hdr v (omega arith) (omega arith))
            ∙ append_assoc (contents e.queue) hdr bytes,
      )

-- the queue that `handle_ack` sends from
abbrev pub acked : TcpExport → ℕ → TcpExport
acked e n = record e {
  queue = record (e.queue) { outstanding_bytes = e.queue.outstanding_bytes - n };
}

acked-IsValid : (e : TcpExport) (n : ℕ) → IsValid e.queue → IsValid (acked e n).queue
acked-IsValid e n v = omega arith

handle_ack-eq :
    (s : Serio) (obuf_empty : List (List ℕ) → Bool) (e : TcpExport) (n : ℕ)
    {r : TcpExport × Effects}
    → process_queue s obuf_empty (acked e n) [] ≡ some r
    → handle_ack s obuf_empty e n ≡ some r
unfolding handle_ack
handle_ack-eq s obuf_empty e n run =
    let left : (if ltb e.queue.outstanding_bytes n then 0 else e.queue.outstanding_bytes - n)
        ≡ e.queue.outstanding_bytes - n =
      ground arith in
    rw left run

-- An acknowledgement of `n` bytes on a valid queue, with a packet header of less than 1000 bytes,
-- returns. It takes `n` off the count of unacknowledged bytes, or clears it if it was less, and then
-- processes the queue.
pub handle_ack_lem :
    (s : Serio) (obuf_empty : List (List ℕ) → Bool) (e : TcpExport) (n : ℕ)
    → s.sizeof_hdr < 1000
    → IsValid e.queue
    → (e' : TcpExport) × (out : Effects) × (handle_ack s obuf_empty e n ≡ some (e', out))
      × Drains s obuf_empty (acked e n) e' out
handle_ack_lem s obuf_empty e n small v =
    let (e', out, run, d) =
      process_queue_lem s obuf_empty (acked e n) small (acked-IsValid e n v) in
    (e', out, handle_ack-eq s obuf_empty e n run, d)
