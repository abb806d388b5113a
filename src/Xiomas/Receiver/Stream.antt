-- ===== src/Xiomas/Receiver/Stream.antt =====
-- The rest of a packet that is in the input is logged whole, and the receiver is then stuck.
use cosmid.Base.{
  ℕ, zero, suc, ◌+◌, ◌≤◌, ◌<◌, ◌≡◌, lt→ltb, ◌==◌, refl, sym, ap, subst, ◌∙◌, arith, min, Bool,
  false, Option, some, List, [], ◌∷◌, ◌++◌, append-nil, append_assoc, length, slice, slice-add,
}
use native.Mathlib.Decide.{dec_le}
use cosmid.Dasio.{Dasio, nc}
use cosmid.Serio.{Serio}
use cosmid.Xiomas.Packet.{Header}
use cosmid.Xiomas.Circ.Inv.{IsValid}
use cosmid.Xiomas.Export.{max_spkt_data_per_serio_pkt}
use cosmid.Xiomas.Receiver.Fields.{
  xtr_mid_pkt, log_curfile, Output, logged, Receiver, get_txmit_size,
}
use cosmid.Xiomas.Receiver.{again, transfer, pass_mid_pkt, pass_in, pass, after_loop, input_loop}
use cosmid.Xiomas.Receiver.Transfer.{logged_bytes, logged_bytes-append, Moved, transfer_lem}
use cosmid.Xiomas.Receiver.Stall.{IsStuck, input_loop-stuck_pos}

-- the bytes of the packet that one pass takes, where all that is left of it is in the input
abbrev pub piece : Receiver → ℕ
piece r = min r.bytes_remaining_in_packet max_spkt_data_per_serio_pkt

pub get_txmit_size-piece :
    (r : Receiver)
    → r.input.cp + r.bytes_remaining_in_packet ≤ nc r.input
    → get_txmit_size r ≡ piece r
unfolding get_txmit_size
get_txmit_size-piece r h = ground arith

regroup : (a b c d : List Output) → ((a ++ b) ++ c) ++ d ≡ a ++ (b ++ (c ++ d))
regroup a b c d = simp append_assoc

module _ (lib : Dasio) (s : Serio) (hdr0 : Header) (obuf_empty : List Output → Bool)
    (exp_obuf_empty : List Output → List (List ℕ) → Bool) (small : s.sizeof_hdr < 1000) where
  -- What the loop has done once all `n` bytes from `cp` on, the rest of the packet, were in the
  -- input: it goes on from `r'`, having put out `new`.
  pub record Received (r : Receiver) (n : ℕ) (r' : Receiver) (new : List Output) : Type 0 where
    pub stuck : IsStuck r'
    pub same_buf : r'.input.buf ≡ r.input.buf
    pub past : r'.input.cp ≡ r.input.cp + n
    pub all_logged : logged_bytes new ≡ slice r.input.buf r.input.cp n
    pub valid : IsValid r'.exp.queue
    pub asked : r'.exp.client ≡ some r.id

  log_piece : Receiver → List Output
  log_piece r = logged (slice r.input.buf r.input.cp (piece r)) log_curfile ∷ []

  pass_mid_pkt-piece :
      (r : Receiver) (out : List Output)
      → 0 < piece r
      → get_txmit_size r ≡ piece r
      → pass_mid_pkt lib s hdr0 obuf_empty exp_obuf_empty r out
        ≡ transfer lib s hdr0 obuf_empty exp_obuf_empty r (out ++ log_piece r) (piece r)
  unfolding pass_mid_pkt log_piece
  pass_mid_pkt-piece r out pos e =
      let some_bytes : (get_txmit_size r == 0) ≡ false = ground arith in rw some_bytes (rw e)

  pass-piece :
      (r : Receiver) (out : List Output)
      → r.state ≡ xtr_mid_pkt
      → 0 < piece r
      → get_txmit_size r ≡ piece r
      → pass lib s hdr0 obuf_empty exp_obuf_empty r out
        ≡ transfer lib s hdr0 obuf_empty exp_obuf_empty r (out ++ log_piece r) (piece r)
  unfolding pass pass_in
  pass-piece r out mid pos e =
      subst
        (λ state.
          pass_in lib s hdr0 obuf_empty exp_obuf_empty state r out
          ≡ transfer lib s hdr0 obuf_empty exp_obuf_empty r (out ++ log_piece r) (piece r))
        (sym mid) (pass_mid_pkt-piece r out pos e)

  pub input_loop-again :
      (fuel : ℕ) (r r' : Receiver) (out out' : List Output)
      → r.input.cp < nc r.input
      → pass lib s hdr0 obuf_empty exp_obuf_empty r out ≡ some (again, r', out')
      → input_loop lib s hdr0 obuf_empty exp_obuf_empty (suc fuel) r out
        ≡ input_loop lib s hdr0 obuf_empty exp_obuf_empty fuel r' out'
  unfolding input_loop
  input_loop-again fuel r r' out out' more next = rw (lt→ltb _ _ more, next)

  logged-log_piece :
      (r : Receiver) (new : List Output)
      → logged_bytes (log_piece r ++ new)
        ≡ slice r.input.buf r.input.cp (piece r) ++ logged_bytes new
  unfolding log_piece
  logged-log_piece r new = refl

  -- The last piece.
  Received-last :
      (r r1 : Receiver) (new1 : List Output)
      → r.state ≡ xtr_mid_pkt
      → Moved r (piece r) r1
      → logged_bytes new1 ≡ []
      → r.bytes_remaining_in_packet ≡ piece r
      → Received r (piece r) r1 (log_piece r ++ new1)
  Received-last r r1 new1 mid m quiet e =
      let complete : r1.bytes_remaining_in_packet ≡ 0 = omega (arith, m.left) in
      record {
        stuck = record { in_packet = m.same_state ∙ mid; complete = complete };
        same_buf = m.same_buf;
        past = m.moved;
        all_logged = logged-log_piece r new1 ∙ rw quiet (append-nil _);
        valid = m.valid;
        asked = m.asked complete ∙ ap some m.same_id;
      }

  -- A piece before the rest.
  Received-more :
      (r r1 r' : Receiver) (new1 new : List Output) (n : ℕ)
      → Moved r (piece r) r1
      → logged_bytes new1 ≡ []
      → Received r1 n r' new
      → Received r (piece r + n) r' (log_piece r ++ (new1 ++ new))
  Received-more r r1 r' new1 new n m quiet rest = record {
    stuck = rest.stuck;
    same_buf = rest.same_buf ∙ m.same_buf;
    past = omega (arith, rest.past, m.moved);
    all_logged =
        logged-log_piece r (new1 ++ new)
        ∙ ap (λ l. slice r.input.buf r.input.cp (piece r) ++ l)
            (logged_bytes-append new1 new ∙ rw (quiet, rest.all_logged, m.same_buf, m.moved) refl)
        ∙ sym (slice-add r.input.buf r.input.cp (piece r) n);
    valid = rest.valid;
    asked = rest.asked ∙ ap some m.same_id;
  }

  stopped :
      (r : Receiver) {out out' : List Output}
      → out ≡ out'
      → ◌≡◌ {A = Option (Option (Receiver × List Output))}
          (some (some (after_loop lib s hdr0 obuf_empty exp_obuf_empty r out)))
          (some (some (after_loop lib s hdr0 obuf_empty exp_obuf_empty r out')))
  stopped r e = ap (λ l. some (some (after_loop lib s hdr0 obuf_empty exp_obuf_empty r l))) e

  -- The loop from the middle of a packet.
  pub input_loop-Received :
      (fuel : ℕ) (r : Receiver) (out : List Output)
      → IsValid r.exp.queue
      → r.state ≡ xtr_mid_pkt
      → 0 < r.bytes_remaining_in_packet
      → r.input.cp + r.bytes_remaining_in_packet ≤ nc r.input
      → r.bytes_remaining_in_packet < fuel
      → (r' : Receiver) × (new : List Output) × (input_loop lib s hdr0 obuf_empty exp_obuf_empty
            fuel r out
          ≡ some (some (after_loop lib s hdr0 obuf_empty exp_obuf_empty r' (out ++ new))))
        × Received r r.bytes_remaining_in_packet r' new
  input_loop-Received zero r out v mid pos h enough = elim enough [ ]
  input_loop-Received (suc fuel) r out v mid pos h enough =
      let t =
        transfer_lem lib s hdr0 obuf_empty exp_obuf_empty small r (out ++ log_piece r) (piece r) v
          (omega arith) in
      let step =
        input_loop-again fuel r t.r' out ((out ++ log_piece r) ++ t.new) (omega arith)
          (pass-piece r out mid (omega arith) (get_txmit_size-piece r h) ∙ t.returns) in
      elim (dec_le r.bytes_remaining_in_packet (piece r)) [
        | yes all ↦
            let e : r.bytes_remaining_in_packet ≡ piece r = omega arith in
            let last = Received-last r t.r' t.new mid t.moves t.logs_nothing e in
            (
              t.r',
              log_piece r ++ t.new,
              step
                  ∙ input_loop-stuck_pos lib s hdr0 obuf_empty exp_obuf_empty fuel t.r'
                      ((out ++ log_piece r) ++ t.new) (omega arith) last.stuck
                  ∙ stopped t.r' (append_assoc out (log_piece r) t.new),
              subst (λ n. Received r n t.r' (log_piece r ++ t.new)) (sym e) last,
            )
        | no part ↦
            let n : ℕ = t.r'.bytes_remaining_in_packet in
            let split : piece r + n ≡ r.bytes_remaining_in_packet = omega (arith, t.moves.left) in
            let (r', new, run, rest) =
              input_loop-Received fuel t.r' ((out ++ log_piece r) ++ t.new) t.moves.valid
                (t.moves.same_state ∙ mid) (omega (arith, t.moves.left))
                (omega (arith, t.moves.left, t.moves.moved, ap length t.moves.same_buf))
                (omega (arith, t.moves.left)) in
            (
              r',
              log_piece r ++ (t.new ++ new),
              step ∙ run ∙ stopped r' (regroup out (log_piece r) t.new new),
              subst (λ k. Received r k r' (log_piece r ++ (t.new ++ new))) split
                  (Received-more r t.r' r' t.new new n t.moves t.logs_nothing rest),
            )
      ]
