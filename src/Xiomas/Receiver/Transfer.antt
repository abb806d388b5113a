-- ===== src/Xiomas/Receiver/Transfer.antt =====
-- One pass of the receiver that takes bytes from its input: what it logs, what it changes.
use cosmid.Base.{
  ℕ, zero, suc, ◌+◌, ◌-◌, ◌<◌, ◌≤◌, ◌≡◌, ◌⊎◌, refl, sym, ap, ◌∙◌, arith, Bool, true, false, Option,
  none, some, List, [], ◌∷◌, ◌++◌, append-nil, append_assoc, ◌>>=◌, slice, Bool-cases, inl, inr,
}
use cosmid.Dasio.{Dasio}
use cosmid.Serio.{Serio}
use cosmid.Xiomas.Packet.{Header}
use cosmid.Xiomas.Circ.Inv.{IsValid}
use cosmid.Xiomas.Export.{TcpExport, Effects, forward_packet, request_ack}
use cosmid.Xiomas.Export.Drain.{outstanding_limit}
use cosmid.Xiomas.Export.Clients.{IsTame, Tells-IsTame}
use cosmid.Xiomas.Receiver.Settled.{
  effects_of, IsQuiet, taken, moved_to, moved_to-IsTame, moved_to-IsQuiet,
}
use cosmid.Xiomas.Export.Forward.{forward_packet_safe}
use cosmid.Xiomas.Receiver.Fields.{
  Output, reported, logged, sent, exported, Receiver, acknowledged, advance,
}
use cosmid.Xiomas.Receiver.{again, transfer}

-- the bytes that went into the log files, in order
abbrev pub logged_bytes : List Output → List ℕ
logged_bytes [] = []
logged_bytes (reported _ ∷ out) = logged_bytes out
logged_bytes (sent _ ∷ out) = logged_bytes out
logged_bytes (exported _ ∷ out) = logged_bytes out
logged_bytes (logged bytes _ ∷ out) = bytes ++ logged_bytes out

pub logged_bytes-append :
    (xs ys : List Output) → logged_bytes (xs ++ ys) ≡ logged_bytes xs ++ logged_bytes ys
logged_bytes-append [] ys = refl
logged_bytes-append (reported _ ∷ xs) ys = logged_bytes-append xs ys
logged_bytes-append (sent _ ∷ xs) ys = logged_bytes-append xs ys
logged_bytes-append (exported _ ∷ xs) ys = logged_bytes-append xs ys
logged_bytes-append (logged bytes _ ∷ xs) ys =
    ap (λ l. bytes ++ l) (logged_bytes-append xs ys)
    ∙ sym (append_assoc bytes (logged_bytes xs) (logged_bytes ys))

-- what taking `n` bytes from the input makes of `r`
pub record Moved (r : Receiver) (n : ℕ) (r' : Receiver) : Type 0 where
  pub same_id : r'.id ≡ r.id
  pub same_state : r'.state ≡ r.state
  pub same_buf : r'.input.buf ≡ r.input.buf
  pub moved : r'.input.cp ≡ r.input.cp + n
  pub left : r'.bytes_remaining_in_packet ≡ r.bytes_remaining_in_packet - n
  pub valid : IsValid r'.exp.queue
  pub asked : r'.bytes_remaining_in_packet ≡ 0 → r'.exp.client ≡ some r'.id

moved_to-Moved :
    (r : Receiver) (e : TcpExport) (told : Option ℕ) (n : ℕ)
    → IsValid e.queue
    → Moved r n (moved_to r e told n)
unfolding taken acknowledged advance request_ack
moved_to-Moved r e told n v = ground arith

module _ (lib : Dasio) (s : Serio) (hdr0 : Header) (obuf_empty : List Output → Bool)
    (exp_obuf_empty : List Output → List (List ℕ) → Bool) (small : s.sizeof_hdr < 1000) where
  -- below it the count of unacknowledged bytes stays
  abbrev pub limit : ℕ
  limit = outstanding_limit s (λ written. true)

  -- what a pass over `n` bytes has done when it leaves `r'` and has put out `new` after the log entry
  pub record Transferred (r : Receiver) (out : List Output) (n : ℕ) : Type 0 where
    pub r' : Receiver
    pub new : List Output
    pub returns :
        transfer lib s hdr0 obuf_empty exp_obuf_empty r out n ≡ some (again, r', out ++ new)
    pub moves : Moved r n r'
    pub logs_nothing : logged_bytes new ≡ []
    pub tame :
        {c d : Option ℕ} {max : ℕ} (effects : List Effects)
        → limit ≤ max
        → d ≡ some r.id
        → IsTame c d max r.exp effects
        → IsTame c d max r'.exp (effects ++ effects_of new)
    pub quiet : IsQuiet r → IsQuiet r' ⊎ (r'.bytes_remaining_in_packet ≡ 0)

  transfer-forward :
      (r : Receiver) (out : List Output) (n : ℕ) {e : TcpExport} {effects : Effects}
      → 0 < n
      → r.transmitting_current_packet ≡ true
      → forward_packet s (exp_obuf_empty out) r.exp (slice r.input.buf r.input.cp n)
        ≡ some (e, effects)
      → transfer lib s hdr0 obuf_empty exp_obuf_empty r out n
        ≡ some (again, moved_to r e effects.acked n, out ++ (exported effects ∷ []))
  unfolding transfer taken
  transfer-forward r out zero pos on forwarded = elim pos [ ]
  transfer-forward r out (suc n) pos on forwarded = rw (on, forwarded, ◌>>=◌) (ground arith)

  transfer-skip :
      (r : Receiver) (out : List Output) (n : ℕ)
      → 0 < n
      → r.transmitting_current_packet ≡ false
      → transfer lib s hdr0 obuf_empty exp_obuf_empty r out n
        ≡ some (again, moved_to r r.exp none n, out)
  unfolding transfer taken
  transfer-skip r out zero pos off = elim pos [ ]
  transfer-skip r out (suc n) pos off = rw off (ground arith)

  -- Taking bytes from the input always succeeds on a valid export queue.
  pub transfer_lem :
      (r : Receiver) (out : List Output) (n : ℕ) → IsValid r.exp.queue → 0 < n → Transferred r out n
  transfer_lem r out n v pos = elim (Bool-cases r.transmitting_current_packet) [
    | inl on ↦
        let (e, effects, forwarded, valid, _, limited, tells) =
          forward_packet_safe s (exp_obuf_empty out) r.exp (slice r.input.buf r.input.cp n) small
            v in
        record {
          r' = moved_to r e effects.acked n;
          new = exported effects ∷ [];
          returns = transfer-forward r out n pos on forwarded;
          moves = moved_to-Moved r e effects.acked n valid;
          logs_nothing = refl;
          tame = λ before below asks tame.
              moved_to-IsTame r e effects.acked n (before ++ (effects ∷ [])) asks (
                Tells-IsTame r.exp e effects before tame valid
                  (omega (arith, limited, below, tame.limited)) tells);
          quiet = λ quiet. moved_to-IsQuiet r e effects n quiet tells;
        }
    | inr off ↦ record {
      r' = moved_to r r.exp none n;
      new = [];
      returns = rw append-nil (transfer-skip r out n pos off);
      moves = moved_to-Moved r r.exp none n v;
      logs_nothing = refl;
      tame =
          λ before below asks tame. rw append-nil (moved_to-IsTame r r.exp none n before asks tame);
      quiet = λ quiet.
          moved_to-IsQuiet r r.exp (record { written = []; acked = none }) n quiet
            (inl (refl, refl));
    }
  ]
