-- ===== src/Xiomas/Receiver/Packets.antt =====
-- A packet that is whole in the input, from its header on.
use cosmid.Base.{
  ℕ, suc, ◌+◌, ◌*◌, ◌≤◌, ◌<◌, ◌≡◌, refl, sym, ap, ap₂, subst, ◌∙◌, arith, Bool, some, List, [],
  ◌++◌, append-nil, length, slice, slice-add,
}
use native.Mathlib.Decide.{dec_le}
use cosmid.Dasio.{Dasio, nc}
use cosmid.Serio.{Serio}
use cosmid.Xiomas.Packet.{Header}
use cosmid.Xiomas.Circ.Inv.{IsValid}
use cosmid.Xiomas.Receiver.Fields.{xtr_idle, xtr_mid_pkt, Output, Receiver}
use cosmid.Xiomas.Receiver.{after_loop, input_loop, protocol_input}
use cosmid.Xiomas.Receiver.Transfer.{logged_bytes, logged_bytes-append, transfer_lem}
use cosmid.Xiomas.Receiver.Stall.{IsStuck, input_loop-stuck_pos}
use cosmid.Xiomas.Receiver.Stream.{input_loop-again, Received, input_loop-Received}
use cosmid.Xiomas.Receiver.Opening.{
  HoldsPacket, begun, preface, size, begun-same, size_bounds, logged-preface, pass-begun,
}

-- what a call of `protocol_input` on a whole packet of `n` bytes has done
pub record Handled (lib : Dasio) (r : Receiver) (n : ℕ) (r' : Receiver) (out : List Output)
    : Type 0 where
  pub all_logged : logged_bytes out ≡ slice r.input.buf r.input.cp n
  pub stuck : IsStuck r'
  pub input_left :
      r'.input ≡ lib.report_ok (r.input.cp + n) (record (r.input) { cp = r.input.cp + n })
  pub asked : r'.exp.client ≡ some r.id
  pub valid : IsValid r'.exp.queue

module _ (lib : Dasio) (s : Serio) (hdr0 : Header) (obuf_empty : List Output → Bool)
    (exp_obuf_empty : List Output → List (List ℕ) → Bool) (small : s.sizeof_hdr < 1000) where
  -- the loop behind the first piece
  rest_of_packet :
      (fuel : ℕ) (r : Receiver) (out : List Output)
      → IsValid r.exp.queue
      → r.state ≡ xtr_mid_pkt
      → (r.bytes_remaining_in_packet ≡ 0 → r.exp.client ≡ some r.id)
      → r.input.cp + r.bytes_remaining_in_packet ≤ nc r.input
      → r.bytes_remaining_in_packet < fuel
      → (r' : Receiver) × (new : List Output) × (input_loop lib s hdr0 obuf_empty exp_obuf_empty
            fuel r out
          ≡ some (some (after_loop lib s hdr0 obuf_empty exp_obuf_empty r' (out ++ new))))
        × Received lib s hdr0 obuf_empty exp_obuf_empty small r r.bytes_remaining_in_packet r' new
  rest_of_packet fuel r out v mid asked h enough = elim (dec_le r.bytes_remaining_in_packet 0) [
    | yes none_left ↦
        let e : r.bytes_remaining_in_packet ≡ 0 = omega arith in
        (
          r,
          [],
          rw append-nil (
              input_loop-stuck_pos lib s hdr0 obuf_empty exp_obuf_empty fuel r out (omega arith)
                (record { in_packet = mid; complete = e })),
          record {
            stuck = record { in_packet = mid; complete = e };
            same_buf = refl;
            past = omega arith;
            all_logged = ap (λ k. slice r.input.buf r.input.cp k) (sym e);
            valid = v;
            asked = asked e;
          },
        )
    | no more ↦
        input_loop-Received lib s hdr0 obuf_empty exp_obuf_empty small fuel r out v mid
          (omega arith) h enough
  ]

  after_loop-Handled :
      (r r1 r' : Receiver) (out new : List Output) (k n : ℕ)
      → r1.input.buf ≡ r.input.buf
      → r1.input.cp ≡ r.input.cp + k
      → r1.id ≡ r.id
      → logged_bytes out ≡ slice r.input.buf r.input.cp k
      → Received lib s hdr0 obuf_empty exp_obuf_empty small r1 n r' new
      → Handled lib r
          (k + n)
          (record r' { input = lib.report_ok r'.input.cp r'.input })
          (out ++ new)
  after_loop-Handled r r1 r' out new k n buf cp id first rest = record {
    all_logged =
        logged_bytes-append out new
        ∙ ap₂ ◌++◌ first (rest.all_logged ∙ ap₂ (λ b c. slice b c n) buf cp)
        ∙ sym (slice-add r.input.buf r.input.cp k n);
    stuck = record { in_packet = rest.stuck.in_packet; complete = rest.stuck.complete };
    input_left =
        ap₂ (λ b c. lib.report_ok c (record { buf = b; cp = c })) (rest.same_buf ∙ buf)
          (omega (arith, rest.past, cp));
    asked = rest.asked ∙ ap some id;
    valid = rest.valid;
  }

  -- the first pass: `k` bytes are logged, and the loop goes on from `r1`
  record Opened (r : Receiver) (n : ℕ) : Type 0 where
    r1 : Receiver
    out : List Output
    k : ℕ
    goes_on :
        (fuel : ℕ)
        → input_loop lib s hdr0 obuf_empty exp_obuf_empty (suc fuel) r []
          ≡ input_loop lib s hdr0 obuf_empty exp_obuf_empty fuel r1 out
    mid : r1.state ≡ xtr_mid_pkt
    valid : IsValid r1.exp.queue
    buf : r1.input.buf ≡ r.input.buf
    cp : r1.input.cp ≡ r.input.cp + k
    id : r1.id ≡ r.id
    left : k + r1.bytes_remaining_in_packet ≡ n
    first : logged_bytes out ≡ slice r.input.buf r.input.cp k
    asked : r1.bytes_remaining_in_packet ≡ 0 → r1.exp.client ≡ some r1.id

  opens :
      (r : Receiver) (n : ℕ)
      → IsValid r.exp.queue
      → r.state ≡ xtr_idle
      → HoldsPacket r n
      → Opened r n
  opens r n v idle holds =
      let start = begun lib s hdr0 obuf_empty exp_obuf_empty r n holds in
      let out = preface lib s hdr0 obuf_empty exp_obuf_empty r n holds in
      let k = size lib s hdr0 obuf_empty exp_obuf_empty r n holds in
      let (same_input, same_id, same_exp, mid, remaining) =
        begun-same lib s hdr0 obuf_empty exp_obuf_empty r n holds in
      let (pos, within) = size_bounds lib s hdr0 obuf_empty exp_obuf_empty r n holds in
      let t =
        transfer_lem lib s hdr0 obuf_empty exp_obuf_empty small start out k (rw same_exp v) pos in
      record {
        r1 = t.r';
        out = out ++ t.new;
        k = k;
        goes_on = λ fuel.
            input_loop-again lib s hdr0 obuf_empty exp_obuf_empty small fuel r t.r' []
              (out ++ t.new) (omega (arith, holds.header_here))
              (pass-begun lib s hdr0 obuf_empty exp_obuf_empty r n holds idle ∙ t.returns);
        mid = t.moves.same_state ∙ mid;
        valid = t.moves.valid;
        buf = t.moves.same_buf ∙ ap (λ i. i.buf) same_input;
        cp = t.moves.moved ∙ ap (λ i. i.cp + k) same_input;
        id = t.moves.same_id ∙ same_id;
        left = omega (arith, t.moves.left, remaining, within);
        first =
            logged_bytes-append out t.new
            ∙ rw (t.logs_nothing, append-nil)
                (logged-preface lib s hdr0 obuf_empty exp_obuf_empty r n holds);
        asked = t.moves.asked;
      }

  -- A receiver that waits for a packet, over a valid export queue and with packet headers of less than
  -- 1000 bytes, is called with a whole packet of at most 214183 bytes and a valid header next in its
  -- input. Then the call returns: nothing aborts and the loop's fuel is enough. It has logged exactly
  -- the packet's bytes, in order, it leaves the input just behind them, whatever follows, and asks the
  -- export client to tell it when the queue is empty; and it is stuck.
  pub protocol_input-Handled :
      (r : Receiver) (n : ℕ)
      → IsValid r.exp.queue
      → r.state ≡ xtr_idle
      → HoldsPacket r n
      → (r' : Receiver) × (out : List Output) × (protocol_input lib s hdr0 obuf_empty exp_obuf_empty
            r
          ≡ some (some (r', out)))
        × Handled lib r n r' out
  unfolding protocol_input after_loop
  protocol_input-Handled r n v idle holds =
      let o = opens r n v idle holds in
      let (r', new, run, rest) =
        rest_of_packet (2 * nc r.input + 1) o.r1 o.out o.valid o.mid o.asked
          (omega (arith, o.cp, o.left, ap length o.buf, holds.all_here))
          (omega (arith, o.left, holds.all_here)) in
      (
        record r' { input = lib.report_ok r'.input.cp r'.input },
        o.out ++ new,
        o.goes_on (2 * nc r.input + 1) ∙ run,
        subst
            (λ m.
              Handled lib r m (record r' { input = lib.report_ok r'.input.cp r'.input })
                (o.out ++ new))
            o.left
            (after_loop-Handled r o.r1 r' o.out new o.k o.r1.bytes_remaining_in_packet o.buf o.cp
              o.id o.first rest),
      )
